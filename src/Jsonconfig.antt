-- ===== src/Jsonconfig.antt =====
-- jsonconfig.h and jsonconfig.c: reading the configuration from a tree of the json-c library, which is a
-- parameter. The strings of the configuration point into the tree, which `jsonconfig_parse` releases at
-- its end: the model returns pointers to released memory, with what was there.
pub mod Shape
pub mod Laws
pub mod Settings
pub mod Sections
pub mod Whole
mod Tests
use umsftpd.Prelude.{
  ℕ, ◌+◌, ◌-◌, ◌%◌, ◌^◌, Bool, true, false, not, List, [], ◌∷◌, ◌++◌, Option, none, some, Bytes,
  codes, take, str_eq, if◌then◌else◌,
}
use umsftpd.Prelude.Int.{ℤ, pos, negsuc}

-- The types of values that the program asks for.
pub data JsonType : Type 0 where
  json_object json_string json_int : JsonType

-- What the program uses of json-c: `json_object_is_type`, the members of an object in the order of
-- `json_object_object_foreach`, and the values of strings and integers.
pub record Json : Type 1 where
  pub Object : Type 0
  pub is_type : Object → JsonType → Bool
  pub members : Object → List (Bytes × Object)
  pub get_string : Object → Bytes
  pub get_int : Object → ℤ

-- `struct json_base_config_t`
pub record BaseConfig : Type 0 where
  pub bind_addr : Option Bytes
  pub bind_port : ℕ
  pub server_key_filename : Option Bytes
  pub loglevel : Option Bytes

-- A string of a configuration that is returned: NULL, or a pointer into the released tree, to where these
-- bytes were.
pub data StringPtr : Type 0 where
  null : StringPtr
  released : Bytes → StringPtr

-- `struct json_base_config_t` behind `json_object_put`.
pub record ReturnedConfig : Type 0 where
  pub bind_addr : StringPtr
  pub bind_port : ℕ
  pub server_key_filename : StringPtr
  pub loglevel : StringPtr

abbrev pub release_string : Option Bytes → StringPtr
release_string none = StringPtr.null
release_string (some s) = StringPtr.released s

-- What `json_object_put` makes of the configuration.
abbrev pub release_base : BaseConfig → ReturnedConfig
release_base base = record {
  bind_addr = release_string base.bind_addr;
  bind_port = base.bind_port;
  server_key_filename = release_string base.server_key_filename;
  loglevel = release_string base.loglevel;
}

-- `struct json_parse_ctx_t`, whose `config` has the member `base` only. Its `parse_error` is never used.
pub record ParseCtx : Type 0 where
  pub base : BaseConfig
  pub error_string : Bytes

abbrev pub zeroed_base : BaseConfig
zeroed_base = record {
  bind_addr = none;
  bind_port = 0;
  server_key_filename = none;
  loglevel = none;
}

-- An `int` as an `unsigned int`.
abbrev pub to_unsigned : ℤ → ℕ
to_unsigned (pos n) = n % 2 ^ 32
to_unsigned (negsuc n) = (2 ^ 32 - (n + 1)) % 2 ^ 32

-- `snprintf` into the 64 bytes of `error_string`, and the result false.
unfoldable pub fail : ParseCtx → Bytes → ParseCtx × Bool
fail ctx text = (record ctx { error_string = take 63 text }, false)

abbrev pub quoted : Bytes → Bytes
quoted name = codes "[" ++ (0x22 ∷ name) ++ (0x22 ∷ codes "]")

-- A value of the wrong type, at a place of the configuration.
abbrev pub not_a : List Bytes → Bytes → Bytes
not_a [] kind = codes " element not a " ++ kind
not_a (name ∷ names) kind = quoted name ++ not_a names kind

-- A setting of "base", if its value has the right type.
abbrev pub store : ParseCtx → Bytes → Bytes → BaseConfig → Bool → ParseCtx × Bool
store ctx key kind base right_type =
    if not right_type
    then fail ctx (codes "config" ++ not_a (codes "base" ∷ key ∷ []) kind)
    else (record ctx { base = base }, true)

module _ (json : Json) where
  -- One member of the loop of `jsonconfig_parse_base`.
  abbrev pub parse_base_member : ParseCtx → Bytes → json.Object → ParseCtx × Bool
  parse_base_member ctx key value =
      if str_eq key (codes "bind_addr")
      then store ctx (codes "bind_addr") (codes "string")
          (record ctx.base { bind_addr = some (json.get_string value) })
          (json.is_type value json_string)
      else if str_eq key (codes "bind_port")
      then store ctx (codes "bind_port") (codes "integer")
          (record ctx.base { bind_port = to_unsigned (json.get_int value) })
          (json.is_type value json_int)
      else if str_eq key (codes "server_key_filename")
      then store ctx (codes "server_key_filename") (codes "string")
          (record ctx.base { server_key_filename = some (json.get_string value) })
          (json.is_type value json_string)
      else if str_eq key (codes "loglevel")
      then store ctx (codes "loglevel") (codes "string")
          (record ctx.base { loglevel = some (json.get_string value) })
          (json.is_type value json_string)
      else (ctx, true)

  -- A loop over members that returns at the first failure.
  unfoldable pub each_member :
      (ParseCtx → Bytes → json.Object → ParseCtx × Bool)
      → ParseCtx
      → List (Bytes × json.Object)
      → ParseCtx × Bool
  each_member parse ctx [] = (ctx, true)
  each_member parse ctx ((key, value) ∷ members) =
      let parsed = parse ctx key value in
      let rest = each_member parse parsed.0 members in if parsed.1 then rest else parsed

  -- `jsonconfig_parse_base`
  abbrev pub parse_base : ParseCtx → json.Object → ParseCtx × Bool
  parse_base ctx base =
      if not (json.is_type base json_object)
      then fail ctx (codes "config" ++ not_a (codes "base" ∷ []) (codes "dictionary"))
      else each_member parse_base_member ctx (json.members base)

  -- `jsonconfig_parse_auth_user`
  abbrev pub parse_auth_user : ParseCtx → Bytes → json.Object → ParseCtx × Bool
  parse_auth_user ctx user_name auth_dict =
      if not (json.is_type auth_dict json_object)
      then fail ctx (codes "config" ++ not_a (codes "auth" ∷ user_name ∷ []) (codes "dictionary"))
      else (ctx, true)

  -- `jsonconfig_parse_auth`
  abbrev pub parse_auth : ParseCtx → json.Object → ParseCtx × Bool
  parse_auth ctx auth =
      if not (json.is_type auth json_object)
      then fail ctx (codes "config" ++ not_a (codes "auth" ∷ []) (codes "dictionary"))
      else each_member parse_auth_user ctx (json.members auth)

  -- `jsonconfig_parse_vfs`
  abbrev pub parse_vfs : ParseCtx → json.Object → ParseCtx × Bool
  parse_vfs ctx vfs =
      if not (json.is_type vfs json_object)
      then fail ctx (codes "config" ++ not_a (codes "vfs" ∷ []) (codes "dictionary"))
      else (ctx, true)

  -- One member of the loop of `jsonconfig_parse_root`.
  abbrev pub parse_root_member : ParseCtx → Bytes → json.Object → ParseCtx × Bool
  parse_root_member ctx key value =
      if str_eq key (codes "base")
      then parse_base ctx value
      else if str_eq key (codes "auth")
      then parse_auth ctx value
      else if str_eq key (codes "vfs")
      then parse_vfs ctx value
      else (ctx, true)

  -- `jsonconfig_parse_root`
  unfoldable pub parse_root : ParseCtx → json.Object → ParseCtx × Bool
  parse_root ctx root =
      if not (json.is_type root json_object)
      then fail ctx (codes "root element not a dictionary")
      else each_member parse_root_member ctx (json.members root)

  -- What `jsonconfig_parse` returns, with the tree released, and what it prints for a tree that it refuses.
  abbrev pub conclude : ParseCtx × Bool → Option ReturnedConfig × Option Bytes
  conclude (ctx, true) = (some (release_base ctx.base), none)
  conclude (ctx, false) = (none, some ctx.error_string)

  -- `jsonconfig_parse`; the flag says whether `calloc` succeeds, and `root` is what
  -- `json_object_from_file` gives.
  abbrev pub parse : Bool → Option json.Object → Option ReturnedConfig × Option Bytes
  parse false root = (none, none)
  parse true none = (none, none)
  parse true (some root) =
      conclude (parse_root (record { base = zeroed_base; error_string = [] }) root)
