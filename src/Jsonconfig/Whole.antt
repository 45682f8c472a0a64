-- ===== src/Jsonconfig/Whole.antt =====
-- The whole of `jsonconfig_parse` of jsonconfig.c: the last value of each setting counts.
use mathlib.Core.List.{foldl, foldl-append}
use umsftpd.Prelude.{
  ◌≡◌, refl, sym, ap, ◌∙◌, Bool, true, false, [], ◌∷◌, ◌++◌, Option, none, some, Bytes, All, codes,
  str_eq, if◌then◌else◌, ◌⊎◌, inl, inr,
}
use umsftpd.Jsonconfig.{
  Json, json_object, BaseConfig, ParseCtx, zeroed_base, to_unsigned, each_member, parse_root_member,
  parse_root, conclude, parse, StringPtr, release_string, release_base,
}
use umsftpd.Jsonconfig.Shape.{
  or_else, last_of, from_last, Members, IsRootMember, IsRoot, base_members, configured, returned,
}
use umsftpd.Jsonconfig.Laws.{Parses, typed, true≢false, each_member-Parses}
use umsftpd.Jsonconfig.Settings.{set_member}
use umsftpd.Jsonconfig.Sections.{set_members, set_root, parse_root_member-Parses}

module _ (json : Json) where
  -- A setting behind all members is that of the last one with its name.
  setting-last_of :
      {A : Type 0} (get : BaseConfig → A) (name : Bytes) (read : json.Object → A)
      → ((base : BaseConfig) (key : Bytes) (value : json.Object)
          → get (set_member json base key value)
            ≡ (if str_eq key name then read value else get base))
      → (base : BaseConfig) (members : Members json)
      → get (set_members json base members) ≡ from_last (get base) read (last_of name members)
  unfolding last_of
  setting-last_of get name read one base [] = refl
  setting-last_of {A = A} get name read one base ((key, value) ∷ members) =
      setting-last_of get name read one (set_member json base key value) members
      ∙ ap (λ d. from_last d read (last_of name members)) (one base key value)
      ∙ latest (str_eq key name) (last_of name members)
    where
      latest :
          (same : Bool) (later : Option json.Object)
          → from_last (if same then read value else get base) read later
            ≡ from_last (get base) read (or_else later (if same then some value else none))
      latest same (some v) = refl
      latest true none = refl
      latest false none = refl

  set_members-configured :
      (members : Members json) → set_members json zeroed_base members ≡ configured json members
  set_members-configured members =
      let text = λ (v : json.Object). some (json.get_string v) in
      let addr =
        setting-last_of (λ b. b.bind_addr) (codes "bind_addr") text (λ b k v. refl) zeroed_base
          members in
      let port =
        setting-last_of (λ b. b.bind_port) (codes "bind_port") (λ v. to_unsigned (json.get_int v))
          (λ b k v. refl) zeroed_base members in
      let key =
        setting-last_of (λ b. b.server_key_filename) (codes "server_key_filename") text
          (λ b k v. refl) zeroed_base members in
      let level =
        setting-last_of (λ b. b.loglevel) (codes "loglevel") text (λ b k v. refl) zeroed_base
          members in
      together (set_members json zeroed_base members) (configured json members) addr port key level
    where
      together :
          (a b : BaseConfig)
          → a.bind_addr ≡ b.bind_addr
          → a.bind_port ≡ b.bind_port
          → a.server_key_filename ≡ b.server_key_filename
          → a.loglevel ≡ b.loglevel
          → a ≡ b
      together a b p q r s = cc

  set_root-base_members :
      (base : BaseConfig) (members : Members json)
      → foldl (λ b (m : Bytes × json.Object). set_root json b m.0 m.1) base members
        ≡ set_members json base (base_members json members)
  set_root-base_members base [] = refl
  set_root-base_members base ((key, value) ∷ members) =
      chosen (str_eq key (codes "base")) (λ b. set_root-base_members b members)
    where
      chosen :
          (b : Bool)
          → ((c : BaseConfig)
              → foldl (λ b (m : Bytes × json.Object). set_root json b m.0 m.1) c members
                ≡ set_members json c (base_members json members))
          → foldl
              (λ b (m : Bytes × json.Object). set_root json b m.0 m.1)
              (if b then set_members json base (json.members value) else base)
              members
            ≡ set_members json base
                ((if b then json.members value else []) ++ base_members json members)
      chosen true ih =
          ih (set_members json base (json.members value))
          ∙ sym (
              foldl-append (λ b (m : Bytes × json.Object). set_member json b m.0 m.1) base
                (json.members value) (base_members json members))
      chosen false ih = ih base

  abbrev fresh : ParseCtx
  fresh = record { base = zeroed_base; error_string = [] }

  parse_root-Parses :
      (root : json.Object)
      → Parses
          (IsRoot json root)
          (foldl
            (λ b (m : Bytes × json.Object). set_root json b m.0 m.1)
            zeroed_base
            (json.members root))
          (parse_root json fresh root)
  unfolding parse_root
  parse_root-Parses root =
      typed (All (λ (m : Bytes × json.Object). IsRootMember json m.0 m.1) (json.members root))
        (foldl (λ b (m : Bytes × json.Object). set_root json b m.0 m.1) zeroed_base
          (json.members root))
        fresh (codes "root element not a dictionary")
        (each_member json (parse_root_member json) fresh (json.members root))
        (json.is_type root json_object)
        (each_member-Parses json (IsRootMember json) (set_root json) (parse_root_member json)
          (parse_root_member-Parses json) fresh (json.members root))

  release_last :
      (o : Option json.Object)
      → release_string (from_last none (λ v. some (json.get_string v)) o)
        ≡ from_last StringPtr.null (λ v. StringPtr.released (json.get_string v)) o
  release_last none = refl
  release_last (some v) = refl

  release-configured :
      (members : Members json) → release_base (configured json members) ≡ returned json members
  release-configured members =
      rw
        (
          release_last (last_of (codes "bind_addr") members),
          release_last (last_of (codes "server_key_filename") members),
          release_last (last_of (codes "loglevel") members),
        )
        refl

  -- A tree is either a configuration, and then the result has the last port that the members named "base"
  -- give it, or 0, and for each other setting a pointer to where its last value was, in memory that is
  -- released, or NULL; or it is not, and then there is no result, but a message.
  pub parse_lem :
      (root : json.Object)
      → (IsRoot json root
          × (parse json true (some root)
              ≡ (some (returned json (base_members json (json.members root))), none)))
        ⊎ ((IsRoot json root → ⊥)
            × ((text : Bytes) × (parse json true (some root) ≡ (none, some text))))
  parse_lem root = decided (parse_root json fresh root) (parse_root-Parses root)
    where
      result : BaseConfig
      result = configured json (base_members json (json.members root))

      read :
          foldl
            (λ b (m : Bytes × json.Object). set_root json b m.0 m.1)
            zeroed_base
            (json.members root)
          ≡ result
      read =
          set_root-base_members zeroed_base (json.members root)
          ∙ set_members-configured (base_members json (json.members root))

      decided :
          (r : ParseCtx × Bool)
          → Parses
              (IsRoot json root)
              (foldl
                (λ b (m : Bytes × json.Object). set_root json b m.0 m.1)
                zeroed_base
                (json.members root))
              r
          → (IsRoot json root
              × (conclude json r
                  ≡ (some (returned json (base_members json (json.members root))), none)))
            ⊎ ((IsRoot json root → ⊥) × ((text : Bytes) × (conclude json r ≡ (none, some text))))
      decided (ctx, true) (inl (p, ok, same)) = inl (
        p,
        ap (λ b. (some b, none))
            (ap release_base (same ∙ read)
              ∙ release-configured (base_members json (json.members root))),
      )
      decided (ctx, false) (inl (p, ok, same)) = absurd (true≢false ok refl)
      decided (ctx, true) (inr (p, bad)) = absurd (true≢false refl bad)
      decided (ctx, false) (inr (p, bad)) = inr (p, (ctx.error_string, refl))
