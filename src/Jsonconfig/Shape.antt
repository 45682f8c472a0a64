-- ===== src/Jsonconfig/Shape.antt =====
-- Which trees jsonconfig.c takes for a configuration, and for which one.
use umsftpd.Prelude.{
  ◌≡◌, true, List, [], ◌∷◌, ◌++◌, Option, none, some, Bytes, All, codes, str_eq, if◌then◌else◌,
}
use umsftpd.Jsonconfig.{
  JsonType, json_object, json_string, json_int, Json, BaseConfig, StringPtr, ReturnedConfig,
  to_unsigned,
}

-- The last member of a name.
abbrev pub or_else {ℓ} : {A : Type ℓ} → Option A → Option A → Option A
or_else (some a) b = some a
or_else none b = b

unfoldable pub last_of {ℓ} : {A : Type ℓ} → Bytes → List (Bytes × A) → Option A
last_of key [] = none
last_of key ((name, value) ∷ members) =
    or_else (last_of key members) (if str_eq name key then some value else none)

abbrev pub from_last {ℓ κ} : {A : Type ℓ} {B : Type κ} → B → (A → B) → Option A → B
from_last d f none = d
from_last d f (some a) = f a

-- The types that the members of "base" must have; other members may be anything.
abbrev pub expected_type : Bytes → Option JsonType
expected_type key =
    if str_eq key (codes "bind_addr")
    then some json_string
    else if str_eq key (codes "bind_port")
    then some json_int
    else if str_eq key (codes "server_key_filename")
    then some json_string
    else if str_eq key (codes "loglevel")
    then some json_string
    else none

module _ (json : Json) where
  abbrev pub Members : Type 0
  Members = List (Bytes × json.Object)

  abbrev pub HasType : json.Object → Option JsonType → Type 0
  HasType value none = Unit
  HasType value (some type) = json.is_type value type ≡ true

  -- A tree that is a configuration, from the inside out.
  abbrev pub IsBase : json.Object → Type 0
  IsBase base =
      (json.is_type base json_object ≡ true)
      × All (λ (m : Bytes × json.Object). HasType m.1 (expected_type m.0)) (json.members base)

  abbrev pub IsAuth : json.Object → Type 0
  IsAuth auth =
      (json.is_type auth json_object ≡ true)
      × All (λ (m : Bytes × json.Object). json.is_type m.1 json_object ≡ true) (json.members auth)

  abbrev pub IsRootMember : Bytes → json.Object → Type 0
  IsRootMember key value =
      if str_eq key (codes "base")
      then IsBase value
      else if str_eq key (codes "auth")
      then IsAuth value
      else if str_eq key (codes "vfs")
      then json.is_type value json_object ≡ true
      else Unit

  abbrev pub IsRoot : json.Object → Type 0
  IsRoot root =
      (json.is_type root json_object ≡ true)
      × All (λ (m : Bytes × json.Object). IsRootMember m.0 m.1) (json.members root)

  -- The members of all values named "base".
  abbrev pub base_members : Members → Members
  base_members [] = []
  base_members ((key, value) ∷ members) =
      (if str_eq key (codes "base") then json.members value else []) ++ base_members members

  -- The configuration of a tree: each setting has its last value, or none, or the port 0.
  abbrev pub configured : Members → BaseConfig
  configured members = record {
    bind_addr =
        from_last none (λ v. some (json.get_string v)) (last_of (codes "bind_addr") members);
    bind_port =
        from_last 0 (λ v. to_unsigned (json.get_int v)) (last_of (codes "bind_port") members);
    server_key_filename =
        from_last none (λ v. some (json.get_string v))
          (last_of (codes "server_key_filename") members);
    loglevel = from_last none (λ v. some (json.get_string v)) (last_of (codes "loglevel") members);
  }

  -- What is returned of it: a pointer for each string that is set, to where its last value was.
  abbrev pub returned : Members → ReturnedConfig
  returned members = record {
    bind_addr =
        from_last StringPtr.null (λ v. StringPtr.released (json.get_string v))
          (last_of (codes "bind_addr") members);
    bind_port =
        from_last 0 (λ v. to_unsigned (json.get_int v)) (last_of (codes "bind_port") members);
    server_key_filename =
        from_last StringPtr.null (λ v. StringPtr.released (json.get_string v))
          (last_of (codes "server_key_filename") members);
    loglevel =
        from_last StringPtr.null (λ v. StringPtr.released (json.get_string v))
          (last_of (codes "loglevel") members);
  }
