-- ===== src/Vfs/Insert/Grown.antt =====
-- Insertion into a map from lists of names, which also enters the directories above.
use umsftpd.Prelude.{
  ◌≡◌, refl, Bool, true, false, ◌&&◌, List, [], ◌∷◌, ◌++◌, Option, none, some, Bytes, arith,
  if◌then◌else◌, str_eq,
}
use umsftpd.Vfs.Table.{Entry, eq_names, or_else}
use umsftpd.Vfs.Insert.Step.{new_entry}

-- A directory that is there for what lies below it.
abbrev pub blank : Entry
blank = new_entry none 0 0

-- What inserting `x` at the first list of names puts at the second: `x` at that list itself, a blank
-- directory above it, and nothing elsewhere.
abbrev pub grown : List Bytes → Entry → List Bytes → Option Entry
grown [] x [] = some x
grown [] x (e ∷ es) = none
grown (c ∷ cs) x [] = some blank
grown (c ∷ cs) x (e ∷ es) = if str_eq c e then grown cs x es else none

-- What stands behind the first list of names in the second, if that begins so.
abbrev pub strip : List Bytes → List Bytes → Option (List Bytes)
strip [] es = some es
strip (p ∷ ps) [] = none
strip (p ∷ ps) (e ∷ es) = if str_eq p e then strip ps es else none

-- The part of the insertion below a prefix.
abbrev pub deeper : Bytes → List Bytes → Entry → Option (List Bytes) → Option Entry
deeper c cs x none = none
deeper c cs x (some []) = none
deeper c cs x (some (e ∷ es)) = if str_eq c e then grown cs x es else none

abbrev pub continue : Bytes → Option (List Bytes) → Option (List Bytes)
continue c none = none
continue c (some []) = none
continue c (some (e ∷ es)) = if str_eq c e then some es else none

pub strip_snoc :
    (ps : List Bytes) (c : Bytes) (es : List Bytes)
    → strip (ps ++ c ∷ []) es ≡ continue c (strip ps es)
strip_snoc [] c [] = refl
strip_snoc [] c (e ∷ es) = refl
strip_snoc (p ∷ ps) c [] = refl
strip_snoc (p ∷ ps) c (e ∷ es) = ground (arith, strip_snoc ps c es)

abbrev pub is_last : Bytes → Option (List Bytes) → Bool
is_last c none = false
is_last c (some []) = false
is_last c (some (e ∷ [])) = str_eq c e
is_last c (some (e ∷ f ∷ es)) = false

and_false : (b : Bool) → (b && false) ≡ false
and_false true = refl
and_false false = refl

and_true : (b : Bool) → (b && true) ≡ b
and_true true = refl
and_true false = refl

pub eq_names_snoc :
    (ps : List Bytes) (c : Bytes) (es : List Bytes)
    → eq_names (ps ++ c ∷ []) es ≡ is_last c (strip ps es)
eq_names_snoc [] c [] = refl
eq_names_snoc [] c (e ∷ []) = and_true (str_eq c e)
eq_names_snoc [] c (e ∷ f ∷ es) = and_false (str_eq c e)
eq_names_snoc (p ∷ ps) c [] = refl
eq_names_snoc (p ∷ ps) c (e ∷ es) = ground (arith, eq_names_snoc ps c es)

-- The last prefix of a path.
pub deeper_last :
    (c : Bytes) (x : Entry) (o : Option (List Bytes))
    → (if is_last c o then some x else none) ≡ deeper c [] x o
deeper_last c x none = refl
deeper_last c x (some []) = refl
deeper_last c x (some (e ∷ [])) = refl
deeper_last c x (some (e ∷ f ∷ es)) = ground arith

-- A prefix, and those below it.
pub deeper_next :
    (c d : Bytes) (cs : List Bytes) (x : Entry) (o : Option (List Bytes)) (y : Option Entry)
    → or_else (or_else y (if is_last c o then some blank else none)) (deeper d cs x (continue c o))
      ≡ or_else y (deeper c (d ∷ cs) x o)
deeper_next c d cs x o (some y) = refl
deeper_next c d cs x none none = refl
deeper_next c d cs x (some []) none = refl
deeper_next c d cs x (some (e ∷ [])) none = ground arith
deeper_next c d cs x (some (e ∷ f ∷ es)) none = ground arith
