-- ===== src/Vfs/Release/Fields.antt =====
-- The blocks of memory that `vfs_free` (vfs.c) releases for one inode.
use umsftpd.Prelude.{
  ℕ, ◌+◌, ◌≡◌, refl, ap, ◌∙◌, Bool, true, false, ◌&&◌, List, [], ◌∷◌, ◌++◌, Option, none, some,
  Bytes, length, ltb, leb, ◌==◌, if◌then◌else◌, arith,
}
use umsftpd.StringList.{StringList}
use umsftpd.Vfs.Release.{Field, free_strings, strings_block, target_block}

abbrev pub same_field : Field → Field → Bool
same_field Field.virtual_path Field.virtual_path = true
same_field Field.target_path Field.target_path = true
same_field Field.inode_struct Field.inode_struct = true
same_field Field.list_struct Field.list_struct = true
same_field Field.list_array Field.list_array = true
same_field (Field.list_string i) (Field.list_string j) = i == j
same_field _ _ = false

-- How often something stands in a list, for a test of equality.
unfoldable pub count : {A : Type 0} → (A → A → Bool) → A → List A → ℕ
count same a [] = 0
count same a (x ∷ xs) = let rest = count same a xs in if same a x then rest + 1 else rest

unfoldable pub times : Bool → ℕ
times b = if b then 1 else 0

-- Whether an inode with a target and a list owns a block.
abbrev pub holds : Option Bytes → Option StringList → Field → Bool
holds target list Field.virtual_path = true
holds target list Field.inode_struct = true
holds target list Field.target_path = elim target [ none ↦ false | some t ↦ true ]
holds target list Field.list_struct = elim list [ none ↦ false | some l ↦ true ]
holds target list Field.list_array = elim list [ none ↦ false | some l ↦ ltb 0 (length l.strings) ]
holds target list (Field.list_string i) = elim list [
  | none ↦ false
  | some l ↦ ltb i (length l.strings)
]

pub count-append :
    {A : Type 0} (same : A → A → Bool) (a : A) (xs ys : List A)
    → count same a (xs ++ ys) ≡ count same a xs + count same a ys
unfolding count
count-append same a [] ys = omega arith
count-append same a (x ∷ xs) ys =
    let e : count same a (xs ++ ys) ≡ count same a xs + count same a ys =
      count-append same a xs ys in
    ground arith

count-strings :
    (k i : ℕ) (ss : List Bytes)
    → count same_field (Field.list_string k) (free_strings i ss)
      ≡ times (leb i k && ltb k (i + length ss))
unfolding count free_strings times
count-strings k i [] = ground arith
count-strings k i (s ∷ ss) =
    let e : count same_field (Field.list_string k) (free_strings (i + 1) ss)
        ≡ (if leb (i + 1) k && ltb k (i + 1 + length ss) then 1 else 0) =
      count-strings k (i + 1) ss in
    ground arith

-- A block that is no string.
count-strings-none :
    (f : Field) (i : ℕ) (ss : List Bytes)
    → ((j : ℕ) → same_field f (Field.list_string j) ≡ false)
    → count same_field f (free_strings i ss) ≡ 0
unfolding count free_strings
count-strings-none f i [] h = refl
count-strings-none f i (s ∷ ss) h = rw (h i) (count-strings-none f (i + 1) ss h)

-- Each block of an inode is released once.
unfoldable pub fields : Option Bytes → StringList → List Field
fields target list =
    Field.virtual_path ∷ target_block target
    ++ (free_strings 0 list.strings ++ strings_block list.strings ++ Field.list_struct ∷ [])
    ++ Field.inode_struct ∷ []

is_string : Field → List Bytes → Bool
is_string (Field.list_string k) ss = ltb k (length ss)
is_string _ ss = false

count-free_strings :
    (f : Field) (ss : List Bytes) → count same_field f (free_strings 0 ss) ≡ times (is_string f ss)
unfolding is_string times
count-free_strings (Field.list_string k) ss =
    let e : count same_field (Field.list_string k) (free_strings 0 ss)
        ≡ (if leb 0 k && ltb k (0 + length ss) then 1 else 0) =
      count-strings k 0 ss in
    ground arith
count-free_strings Field.virtual_path ss = count-strings-none Field.virtual_path 0 ss (λ j. refl)
count-free_strings Field.target_path ss = count-strings-none Field.target_path 0 ss (λ j. refl)
count-free_strings Field.inode_struct ss = count-strings-none Field.inode_struct 0 ss (λ j. refl)
count-free_strings Field.list_struct ss = count-strings-none Field.list_struct 0 ss (λ j. refl)
count-free_strings Field.list_array ss = count-strings-none Field.list_array 0 ss (λ j. refl)

-- What an inode releases, part by part.
count-parts :
    (target : Option Bytes) (list : StringList) (f : Field)
    → count same_field f (fields target list)
      ≡ count same_field f (Field.virtual_path ∷ [])
        + (count same_field f (target_block target)
            + (times (is_string f list.strings)
                + count same_field f (strings_block list.strings)
                + count same_field f (Field.list_struct ∷ []))
            + count same_field f (Field.inode_struct ∷ []))
unfolding fields
count-parts target list f =
    let strings = free_strings 0 list.strings in
    let array = strings_block list.strings in
    let own = Field.list_struct ∷ [] in
    let inode = Field.inode_struct ∷ [] in
    let counted = count same_field f in
    let targets = target_block target in
    count-append same_field f (Field.virtual_path ∷ [])
      (targets ++ (strings ++ array ++ own) ++ inode)
    ∙ ap (λ c. counted (Field.virtual_path ∷ []) + c)
        (count-append same_field f (targets ++ (strings ++ array ++ own)) inode
          ∙ ap (λ c. c + counted inode)
              (count-append same_field f targets (strings ++ array ++ own)
                ∙ ap (λ c. counted targets + c)
                    (count-append same_field f (strings ++ array) own
                      ∙ ap (λ c. c + counted own)
                          (count-append same_field f strings array
                            ∙ ap (λ c. c + counted array) (count-free_strings f list.strings)))))

pub count-fields :
    (target : Option Bytes) (list : StringList) (f : Field)
    → count same_field f (fields target list) ≡ times (holds target (some list) f)
unfolding count is_string times
count-fields target list f = count-parts target list f ∙ by_field f target list.strings
  where
    by_field :
        (f : Field) (target : Option Bytes) (ss : List Bytes)
        → count same_field f (Field.virtual_path ∷ [])
            + (count same_field f (target_block target)
                + (times (is_string f ss)
                    + count same_field f (strings_block ss)
                    + count same_field f (Field.list_struct ∷ []))
                + count same_field f (Field.inode_struct ∷ []))
          ≡ times (holds target (some (record { strings = ss; sorted = true })) f)
    by_field Field.virtual_path target ss = ground arith
    by_field Field.target_path target ss = ground arith
    by_field Field.inode_struct target ss = ground arith
    by_field Field.list_struct target ss = ground arith
    by_field Field.list_array target ss = ground arith
    by_field (Field.list_string k) target ss = ground arith
