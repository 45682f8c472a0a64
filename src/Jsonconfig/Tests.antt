-- ===== src/Jsonconfig/Tests.antt =====
-- jsonconfig.c on a tree in which "base" and a setting stand twice, and on values of wrong types.
use umsftpd.Prelude.{◌≡◌, refl, Bool, true, false, List, [], ◌∷◌, none, some, Bytes, codes, ◌⊎◌}
use umsftpd.Prelude.Int.{ℤ, pos, negsuc}
use umsftpd.Jsonconfig.{
  JsonType, json_object, json_string, json_int, Json, StringPtr, parse, parse_root, each_member,
  fail,
}
use umsftpd.Jsonconfig.Shape.{IsRoot, base_members, returned}
use umsftpd.Jsonconfig.Whole.{parse_lem}

-- The values of a tree.
data Node : Type 0 where
  root : Node
  first_base second_base : Node
  users : Node
  address : Bytes → Node
  port : ℤ → Node

abbrev node_type : Node → JsonType → Bool
node_type (address s) json_string = true
node_type (address s) _ = false
node_type (port n) json_int = true
node_type (port n) _ = false
node_type _ json_object = true
node_type _ _ = false

abbrev node_members : Node → List (Bytes × Node)
node_members root =
    (codes "base", first_base)
    ∷ (codes "comment", port (pos 1))
    ∷ (codes "base", second_base)
    ∷ (codes "auth", users)
    ∷ []
node_members first_base =
    (codes "bind_addr", address (codes "127.0.0.1")) ∷ (codes "bind_port", port (pos 22)) ∷ []
node_members second_base = (codes "bind_port", port (negsuc 0)) ∷ []
node_members _ = []

abbrev node_string : Node → Bytes
node_string (address s) = s
node_string _ = []

abbrev node_int : Node → ℤ
node_int (port n) = n
node_int _ = pos 0

abbrev tree : Json
tree = record {
  Object = Node;
  is_type = node_type;
  members = node_members;
  get_string = node_string;
  get_int = node_int;
}

parse_test : parse tree true (some root) ≡ (
  some (record {
    bind_addr = StringPtr.released (codes "127.0.0.1");
    bind_port = 4294967295;
    server_key_filename = StringPtr.null;
    loglevel = StringPtr.null;
  }),
  none,
)
unfolding parse_root each_member fail
parse_test = refl

wrong_type_test :
    parse tree true (some (port (pos 1))) ≡ (none, some (codes "root element not a dictionary"))
unfolding parse_root each_member fail
wrong_type_test = refl

parse_lem_example :
    (IsRoot tree root
      × (parse tree true (some root)
          ≡ (some (returned tree (base_members tree (node_members root))), none)))
    ⊎ ((IsRoot tree root → ⊥)
        × ((text : Bytes) × (parse tree true (some root) ≡ (none, some text))))
parse_lem_example = parse_lem tree root
