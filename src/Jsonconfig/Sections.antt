-- ===== src/Jsonconfig/Sections.antt =====
-- The members of the tree that jsonconfig.c reads: the settings, the users and the file system.
use mathlib.Core.List.{foldl}
use mathlib.Core.Path.{subst}
use umsftpd.Prelude.{
  ◌≡◌, refl, Bool, true, false, not, [], ◌∷◌, ◌++◌, Bytes, All, codes, str_eq, if◌then◌else◌, inl,
  inr,
}
use umsftpd.Jsonconfig.{
  json_object, Json, BaseConfig, ParseCtx, fail, parse_base_member, each_member, parse_base,
  parse_auth_user, parse_auth, parse_vfs, parse_root_member, not_a,
}
use umsftpd.Jsonconfig.Shape.{expected_type, Members, HasType, IsBase, IsAuth, IsRootMember}
use umsftpd.Jsonconfig.Laws.{Parses, true≢false, typed, each_member-Parses}
use umsftpd.Jsonconfig.Settings.{set_member, parse_base_member-Parses}

module _ (json : Json) where
  -- The rest of the tree is checked but sets nothing.
  parse_auth_user-Parses :
      (ctx : ParseCtx) (name : Bytes) (value : json.Object)
      → Parses
          (json.is_type value json_object ≡ true)
          ctx.base
          (parse_auth_user json ctx name value)
  unfolding fail
  parse_auth_user-Parses ctx name value = checked (json.is_type value json_object)
    where
      checked :
          (b : Bool)
          → Parses (b ≡ true) ctx.base (
              if not b
              then fail ctx
                  (codes "config" ++ not_a (codes "auth" ∷ name ∷ []) (codes "dictionary"))
              else (ctx, true))
      checked true = inl (refl, refl, refl)
      checked false = inr (λ q. true≢false q refl, refl)

  parse_vfs-Parses :
      (ctx : ParseCtx) (value : json.Object)
      → Parses (json.is_type value json_object ≡ true) ctx.base (parse_vfs json ctx value)
  unfolding fail
  parse_vfs-Parses ctx value = checked (json.is_type value json_object)
    where
      checked :
          (b : Bool)
          → Parses (b ≡ true) ctx.base (
              if not b
              then fail ctx (codes "config" ++ not_a (codes "vfs" ∷ []) (codes "dictionary"))
              else (ctx, true))
      checked true = inl (refl, refl, refl)
      checked false = inr (λ q. true≢false q refl, refl)

  foldl_keep :
      (base : BaseConfig) (members : Members json)
      → foldl (λ b (m : Bytes × json.Object). b) base members ≡ base
  foldl_keep base [] = refl
  foldl_keep base (m ∷ members) = foldl_keep base members

  abbrev pub set_members : BaseConfig → Members json → BaseConfig
  set_members = foldl (λ base (m : Bytes × json.Object). set_member json base m.0 m.1)

  parse_base-Parses :
      (ctx : ParseCtx) (value : json.Object)
      → Parses
          (IsBase json value)
          (set_members ctx.base (json.members value))
          (parse_base json ctx value)
  parse_base-Parses ctx value =
      typed
        (All (λ (m : Bytes × json.Object). HasType json m.1 (expected_type m.0))
          (json.members value))
        (set_members ctx.base (json.members value)) ctx
        (codes "config" ++ not_a (codes "base" ∷ []) (codes "dictionary"))
        (each_member json (parse_base_member json) ctx (json.members value))
        (json.is_type value json_object)
        (each_member-Parses json (λ key v. HasType json v (expected_type key)) (set_member json)
          (parse_base_member json) (parse_base_member-Parses json) ctx (json.members value))

  parse_auth-Parses :
      (ctx : ParseCtx) (value : json.Object)
      → Parses (IsAuth json value) ctx.base (parse_auth json ctx value)
  parse_auth-Parses ctx value =
      let users = json.members value in
      typed (All (λ (m : Bytes × json.Object). json.is_type m.1 json_object ≡ true) users) ctx.base
        ctx (codes "config" ++ not_a (codes "auth" ∷ []) (codes "dictionary"))
        (each_member json (parse_auth_user json) ctx users) (json.is_type value json_object)
        (subst
          (λ b.
            Parses (All (λ (m : Bytes × json.Object). json.is_type m.1 json_object ≡ true) users) b
              (each_member json (parse_auth_user json) ctx users))
          (foldl_keep ctx.base users)
          (each_member-Parses json (λ _ v. json.is_type v json_object ≡ true) (λ b _ _. b)
            (parse_auth_user json) parse_auth_user-Parses ctx users))

  abbrev pub set_root : BaseConfig → Bytes → json.Object → BaseConfig
  set_root base key value =
      if str_eq key (codes "base") then set_members base (json.members value) else base

  pub parse_root_member-Parses :
      (ctx : ParseCtx) (key : Bytes) (value : json.Object)
      → Parses
          (IsRootMember json key value)
          (set_root ctx.base key value)
          (parse_root_member json ctx key value)
  parse_root_member-Parses ctx key value =
      chain (str_eq key (codes "base")) (str_eq key (codes "auth")) (str_eq key (codes "vfs"))
    where
      chain :
          (b a v : Bool)
          → Parses
              (if b
                then IsBase json value
                else if a
                then IsAuth json value
                else if v
                then json.is_type value json_object ≡ true
                else Unit)
              (if b then set_members ctx.base (json.members value) else ctx.base)
              (if b
                then parse_base json ctx value
                else if a
                then parse_auth json ctx value
                else if v
                then parse_vfs json ctx value
                else (ctx, true))
      chain true a v = parse_base-Parses ctx value
      chain false true v = parse_auth-Parses ctx value
      chain false false true = parse_vfs-Parses ctx value
      chain false false false = inl (tt, refl, refl)
