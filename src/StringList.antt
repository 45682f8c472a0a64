-- ===== src/StringList.antt =====
-- stringlist.c: a growing array of strings that is sorted when it is first searched. `count` is the
-- length of `strings`. `qsort` and `bsearch` are those of the C library, for the order of `strcmp`.
pub mod Order
mod Tests
pub mod Sort
pub mod Search
use umsftpd.Prelude.{
  ℕ, zero, suc, ◌+◌, ◌/◌, Bool, true, false, not, List, [], ◌∷◌, ◌++◌, Option, none, some, Bytes,
  length, get_or, ltb, if◌then◌else◌,
}
use umsftpd.StringList.Order.{strcmp, Ordering}

-- `struct stringlist_t`
pub record StringList : Type 0 where
  pub strings : List Bytes
  pub sorted : Bool

abbrev pub empty : StringList
empty = record { strings = []; sorted = true }

-- `stringlist_new`; the flag says whether `calloc` succeeds.
unfoldable pub new : Bool → Option StringList
new calloc_ok = if calloc_ok then some empty else none

-- `stringlist_insert`; the flags say whether `strdup` and `realloc` succeed.
unfoldable pub insert : Bool → Bool → StringList → Bytes → StringList × Bool
insert strdup_ok realloc_ok list string =
    if not strdup_ok
    then (list, false)
    else if not realloc_ok
    then (list, false)
    else (record { strings = list.strings ++ string ∷ []; sorted = false }, true)

-- `qsort` with `stringlist_cmp`. Strings that compare equal are the same bytes, so every correct
-- sorting routine returns this list.
pub insert_sorted : Bytes → List Bytes → List Bytes
insert_sorted x [] = x ∷ []
insert_sorted x (y ∷ ys) = elim (strcmp x y) [
  | Ordering.gt ↦ y ∷ insert_sorted x ys
  | _ ↦ x ∷ y ∷ ys
]

pub qsort : List Bytes → List Bytes
qsort [] = []
qsort (x ∷ xs) = insert_sorted x (qsort xs)

-- `stringlist_sort`
unfoldable pub sort : StringList → StringList
sort list =
    if ltb 0 (length list.strings)
    then record { strings = qsort list.strings; sorted = true }
    else list

-- `bsearch` between the indices `l` and `u`; every round halves the range, so `u - l` rounds suffice.
pub bsearch : ℕ → Bytes → List Bytes → ℕ → ℕ → Bool
bsearch zero key xs l u = false
bsearch (suc fuel) key xs l u =
    let i = (l + u) / 2 in
    elim (ltb l u) [
      | true ↦ elim (strcmp key (get_or xs i [])) [
        | Ordering.lt ↦ bsearch fuel key xs l i
        | Ordering.gt ↦ bsearch fuel key xs (i + 1) u
        | Ordering.eq ↦ true
      ]
      | false ↦ false
    ]

-- `stringlist_contains`, which sorts the list when it is not sorted.
unfoldable pub contains : StringList → Bytes → StringList × Bool
contains list string =
    if not (ltb 0 (length list.strings))
    then (list, false)
    else let list' = if not list.sorted then sort list else list in
      (list', bsearch (length list'.strings) string list'.strings 0 (length list'.strings))
