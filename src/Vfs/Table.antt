-- ===== src/Vfs/Table.antt =====
-- The inodes of vfs.c as a map from lists of names to what is configured there.
use mathlib.Core.Option
use mathlib.Core.Path.{subst}
use umsftpd.Prelude.{
  ℕ, ◌≡◌, ◌↔◌, refl, sym, ap, ◌∙◌, Bool, true, false, ◌&&◌, List, [], ◌∷◌, ◌++◌, Option, none, some,
  Bytes, All, length, arith, str_eq, str_eq_iff, if◌then◌else◌, Bool-cases, inl, inr, ◌⊎◌,
}
use umsftpd.Paths.{pathcmp}
use umsftpd.Paths.Names.{IsName, render, show}
use umsftpd.Paths.Compare.{pathcmp-render}
use umsftpd.StringList.{StringList}
use umsftpd.Vfs.{Inode, target_length, find_in}

-- What is configured for a virtual path.
pub record Entry : Type 0 where
  pub flags_set : ℕ
  pub flags_reset : ℕ
  pub target : Option Bytes

abbrev pub entry_of : Inode → Entry
entry_of n = record { flags_set = n.flags_set; flags_reset = n.flags_reset; target = n.target_path }

-- An inode that `vfs_add_single_inode` has made for a list of names.
pub record IsNode (n : Inode) : Type 0 where
  pub names : List Bytes
  pub named : All IsName names
  pub path : n.virtual_path ≡ render names
  pub measured : n.vlen ≡ length n.virtual_path
  pub target_measured : n.tlen ≡ target_length n.target_path
  pub list : StringList
  pub listed : n.virtual_subdirs ≡ some list

-- The map that a table of inodes stands for.
abbrev pub entries : List Inode → List Bytes → Option Entry
entries ns ds = Option.map entry_of (find_in ns (show ds))

abbrev pub eq_names : List Bytes → List Bytes → Bool
eq_names [] [] = true
eq_names [] (y ∷ es) = false
eq_names (x ∷ ds) [] = false
eq_names (x ∷ ds) (y ∷ es) = str_eq x y && eq_names ds es

pub eq_names_iff : (ds es : List Bytes) → (eq_names ds es ≡ true) ↔ (ds ≡ es)
eq_names_iff ds es = (to ds es, λ e. rw e (same es))
  where
    same : (es : List Bytes) → eq_names es es ≡ true
    same [] = refl
    same (y ∷ es) = rw ((str_eq_iff y y).1 refl) (same es)

    to : (ds es : List Bytes) → eq_names ds es ≡ true → ds ≡ es
    to [] [] h = refl
    to [] (y ∷ es) h = cc
    to (x ∷ ds) [] h = cc
    to (x ∷ ds) (y ∷ es) h = ground (arith, str_eq_iff x y, to ds es)

Bool_iff : (a b : Bool) (P : Type 0) → ((a ≡ true) ↔ P) → ((b ≡ true) ↔ P) → a ≡ b
Bool_iff true b P h k = sym (k.1 (h.0 refl))
Bool_iff false true P h k = h.1 (k.0 refl)
Bool_iff false false P h k = refl

-- Comparing paths is comparing names.
pub pathcmp-eq_names :
    (ds es : List Bytes)
    → All IsName ds
    → All IsName es
    → pathcmp (render ds) (show es) ≡ eq_names ds es
pathcmp-eq_names ds es h k =
    Bool_iff (pathcmp (render ds) (show es)) (eq_names ds es) (ds ≡ es) (pathcmp-render ds es h k).0
      (eq_names_iff ds es)

abbrev pub or_else : Option Entry → Option Entry → Option Entry
or_else (some x) y = some x
or_else none y = y

found_path :
    (n : Inode) (v : IsNode n) (es : List Bytes)
    → All IsName es
    → pathcmp n.virtual_path (show es) ≡ eq_names v.names es
found_path n v es h = rw v.path (pathcmp-eq_names v.names es v.named h)

find_in-cons :
    (n : Inode) (ns : List Inode) (path : Bytes) (b : Bool)
    → pathcmp n.virtual_path path ≡ b
    → find_in (n ∷ ns) path ≡ (if b then some n else find_in ns path)
unfolding find_in
find_in-cons n ns path b e = ap (λ t. if t then some n else find_in ns path) e

pub or_else-none : (x : Option Entry) → x ≡ or_else x none
or_else-none none = refl
or_else-none (some x) = refl

-- A path is found at the first inode that has it.
pub entries-cons :
    (n : Inode) (ns : List Inode) (v : IsNode n) (es : List Bytes)
    → All IsName es
    → entries (n ∷ ns) es ≡ (if eq_names v.names es then some (entry_of n) else entries ns es)
entries-cons n ns v es h =
    ap (Option.map entry_of)
      (find_in-cons n ns (show es) (eq_names v.names es) (found_path n v es h))
    ∙ map-if (eq_names v.names es) n (find_in ns (show es))
  where
    map-if :
        (b : Bool) (m : Inode) (o : Option Inode)
        → Option.map entry_of (if b then some m else o)
          ≡ (if b then some (entry_of m) else Option.map entry_of o)
    map-if true m o = refl
    map-if false m o = refl

entries-nil : (es : List Bytes) → entries [] es ≡ none
unfolding find_in
entries-nil es = refl

or_else-if :
    (b : Bool) (x : Entry) (y z : Option Entry)
    → (if b then some x else or_else y z) ≡ or_else (if b then some x else y) z
or_else-if true x y z = refl
or_else-if false x y z = refl

-- A new inode at the end of the table shows where nothing stood before.
pub entries-append :
    (ns : List Inode) (n : Inode) (v : IsNode n) (es : List Bytes)
    → All IsNode ns
    → All IsName es
    → entries (ns ++ n ∷ []) es
      ≡ or_else (entries ns es) (if eq_names v.names es then some (entry_of n) else none)
entries-append [] n v es h k = entries-cons n [] v es k ∙ rw entries-nil
entries-append (m ∷ ns) n v es h k =
    entries-cons m (ns ++ n ∷ []) h.0 es k
    ∙ ap (λ o. if eq_names h.0.names es then some (entry_of m) else o)
        (entries-append ns n v es h.1 k)
    ∙ or_else-if (eq_names h.0.names es) (entry_of m) (entries ns es)
        (if eq_names v.names es then some (entry_of n) else none)
    ∙ ap (λ o. or_else o (if eq_names v.names es then some (entry_of n) else none))
        (sym (entries-cons m ns h.0 es k))

find_in_first :
    (n : Inode) (ns : List Inode) (path : Bytes) (m : Inode)
    → find_in (n ∷ ns) path ≡ some m
    → ((pathcmp n.virtual_path path ≡ true) × (n ≡ m)) ⊎ (find_in ns path ≡ some m)
unfolding find_in
find_in_first n ns path m e = elim (Bool-cases (pathcmp n.virtual_path path)) [
  | inl b ↦ inl (b, ground arith)
  | inr b ↦ inr (ground arith)
]

-- An inode that is found at a path of names has these names.
pub found-IsNode :
    (ns : List Inode) (ds : List Bytes) (m : Inode)
    → All IsNode ns
    → All IsName ds
    → find_in ns (show ds) ≡ some m
    → (v : IsNode m) × (v.names ≡ ds)
found-IsNode [] ds m h k e = unfold find_in in cc
found-IsNode (n ∷ ns) ds m h k e = elim (find_in_first n ns (show ds) m e) [
  | inl (b, p) ↦
      subst (λ x. (v : IsNode x) × (v.names ≡ ds)) p
        (h.0, (eq_names_iff (h.0).names ds).0 (sym (found_path n h.0 ds k) ∙ b))
  | inr f ↦ found-IsNode ns ds m h.1 k f
]
