-- ===== src/Jsonconfig/Settings.antt =====
-- The settings that `jsonconfig_parse_base` of jsonconfig.c reads from a member.
use umsftpd.Prelude.{
  ◌≡◌, refl, ap, ◌∙◌, Bool, true, false, none, some, Bytes, codes, str_eq, str_eq_iff,
  if◌then◌else◌, inl,
}
use umsftpd.Jsonconfig.{
  json_string, json_int, Json, BaseConfig, ParseCtx, to_unsigned, store, parse_base_member,
}
use umsftpd.Jsonconfig.Shape.{expected_type, HasType}
use umsftpd.Jsonconfig.Laws.{Parses, store-Parses}

module _ (json : Json) where
  -- What a member of "base" sets.
  abbrev pub set_member : BaseConfig → Bytes → json.Object → BaseConfig
  set_member base key value = record {
    bind_addr =
        if str_eq key (codes "bind_addr") then some (json.get_string value) else base.bind_addr;
    bind_port =
        if str_eq key (codes "bind_port") then to_unsigned (json.get_int value) else base.bind_port;
    server_key_filename =
        if str_eq key (codes "server_key_filename")
        then some (json.get_string value)
        else base.server_key_filename;
    loglevel =
        if str_eq key (codes "loglevel") then some (json.get_string value) else base.loglevel;
  }

  pub parse_base_member-Parses :
      (ctx : ParseCtx) (key : Bytes) (value : json.Object)
      → Parses
          (HasType json value (expected_type key))
          (set_member ctx.base key value)
          (parse_base_member json ctx key value)
  parse_base_member-Parses ctx key value =
      chain (str_eq key (codes "bind_addr")) (str_eq key (codes "bind_port"))
        (str_eq key (codes "server_key_filename")) (str_eq key (codes "loglevel"))
        (apart (codes "bind_addr") (codes "bind_port") refl)
        (apart (codes "bind_addr") (codes "server_key_filename") refl)
        (apart (codes "bind_addr") (codes "loglevel") refl)
        (apart (codes "bind_port") (codes "server_key_filename") refl)
        (apart (codes "bind_port") (codes "loglevel") refl)
        (apart (codes "server_key_filename") (codes "loglevel") refl)
    where
      with_addr : BaseConfig
      with_addr = record ctx.base { bind_addr = some (json.get_string value) }

      with_port : BaseConfig
      with_port = record ctx.base { bind_port = to_unsigned (json.get_int value) }

      with_key : BaseConfig
      with_key = record ctx.base { server_key_filename = some (json.get_string value) }

      with_level : BaseConfig
      with_level = record ctx.base { loglevel = some (json.get_string value) }

      apart : (a b : Bytes) → str_eq a b ≡ false → str_eq key a ≡ true → str_eq key b ≡ false
      apart a b e q = ap (λ k. str_eq k b) ((str_eq_iff key a).0 q) ∙ e

      chain :
          (a p s l : Bool)
          → (a ≡ true → p ≡ false)
          → (a ≡ true → s ≡ false)
          → (a ≡ true → l ≡ false)
          → (p ≡ true → s ≡ false)
          → (p ≡ true → l ≡ false)
          → (s ≡ true → l ≡ false)
          → Parses
              (HasType json value (
                if a
                then some json_string
                else if p
                then some json_int
                else if s
                then some json_string
                else if l
                then some json_string
                else none))
              (record {
                bind_addr = if a then some (json.get_string value) else ctx.base.bind_addr;
                bind_port = if p then to_unsigned (json.get_int value) else ctx.base.bind_port;
                server_key_filename =
                    if s then some (json.get_string value) else ctx.base.server_key_filename;
                loglevel = if l then some (json.get_string value) else ctx.base.loglevel;
              })
              (if a
                then store ctx
                    (codes "bind_addr")
                    (codes "string")
                    with_addr
                    (json.is_type value json_string)
                else if p
                then store ctx
                    (codes "bind_port")
                    (codes "integer")
                    with_port
                    (json.is_type value json_int)
                else if s
                then store ctx
                    (codes "server_key_filename")
                    (codes "string")
                    with_key
                    (json.is_type value json_string)
                else if l
                then store ctx
                    (codes "loglevel")
                    (codes "string")
                    with_level
                    (json.is_type value json_string)
                else (ctx, true))
      chain true p s l not_p not_s not_l _ _ _ =
          rw (not_p refl, not_s refl, not_l refl)
            (store-Parses ctx (codes "bind_addr") (codes "string") with_addr
              (json.is_type value json_string))
      chain false true s l _ _ _ not_s not_l _ =
          rw (not_s refl, not_l refl)
            (store-Parses ctx (codes "bind_port") (codes "integer") with_port
              (json.is_type value json_int))
      chain false false true l _ _ _ _ _ not_l = rw (not_l refl) (
          store-Parses ctx (codes "server_key_filename") (codes "string") with_key
            (json.is_type value json_string))
      chain false false false true _ _ _ _ _ _ =
          store-Parses ctx (codes "loglevel") (codes "string") with_level
            (json.is_type value json_string)
      chain false false false false _ _ _ _ _ _ = inl (tt, refl, refl)
