-- ===== src/StringList/Search.antt =====
-- `stringlist_contains` finds exactly the strings that were inserted.
use mathlib.Core.List.{Perm}
use mathlib.Core.List.Perm
use umsftpd.Prelude.{
  ℕ, zero, suc, ◌+◌, ◌/◌, ◌≤◌, ◌<◌, Bool, true, false, ◌||◌, ◌≡◌, ◌≢◌, refl, sym, ap, ◌∙◌, List, [],
  ◌∷◌, ◌++◌, Bytes, All, arith, length, get_or, str_eq, str_eq_refl, str_eq→eq, Bool-cases, inl,
  inr, ◌&&◌,
}
use Prim.Native.Nat.{Ordering}
use native.Mathlib.Decide.{dec_lt}
use umsftpd.StringList.{StringList, empty, insert, sort, qsort, bsearch, contains}
use umsftpd.StringList.Order.{strcmp, Le, strcmp_refl, strcmp-eq, strcmp-lt}
use umsftpd.StringList.Sort.{Sorted, qsort-Sorted, qsort-perm, qsort-elem, length-qsort, elem}

get_or-elem :
    (xs : List Bytes) (i : ℕ) (key : Bytes)
    → i < length xs
    → get_or xs i [] ≡ key
    → elem key xs ≡ true
get_or-elem [] i key h e = absurd (omega arith)
get_or-elem (x ∷ xs) zero key h e = rw (e, str_eq_refl key)
get_or-elem (x ∷ xs) (suc i) key h e = ground (arith, get_or-elem xs i key (omega arith) e)

elem-get_or :
    (key : Bytes) (xs : List Bytes)
    → elem key xs ≡ true
    → (i : ℕ) × (i < length xs) × (get_or xs i [] ≡ key)
elem-get_or key [] h = cc
elem-get_or key (x ∷ xs) h = elim (Bool-cases (str_eq key x)) [
  | inl e ↦ (0, omega arith, sym (str_eq→eq key x e))
  | inr e ↦ let (i, p, q) = elem-get_or key xs (rw e at h) in (suc i, omega arith, q)
]

All-get_or :
    (P : Bytes → Type 0) (xs : List Bytes) (i : ℕ) → All P xs → i < length xs → P (get_or xs i [])
All-get_or P [] i h p = absurd (omega arith)
All-get_or P (x ∷ xs) zero h p = h.0
All-get_or P (x ∷ xs) (suc i) h p = All-get_or P xs i h.1 (omega arith)

Sorted-get_or :
    (xs : List Bytes) (i j : ℕ)
    → Sorted xs
    → i < j
    → j < length xs
    → Le (get_or xs i []) (get_or xs j [])
Sorted-get_or [] i j s h k = absurd (omega arith)
Sorted-get_or (x ∷ xs) i zero s h k = absurd (omega arith)
Sorted-get_or (x ∷ xs) zero (suc j) s h k = All-get_or (Le x) xs j s.0 (omega arith)
Sorted-get_or (x ∷ xs) (suc i) (suc j) s h k = Sorted-get_or xs i j s.1 (omega arith) (omega arith)

bsearch_sound :
    (fuel : ℕ) (key : Bytes) (xs : List Bytes) (l u : ℕ)
    → u ≤ length xs
    → bsearch fuel key xs l u ≡ true
    → elem key xs ≡ true
unfolding bsearch
bsearch_sound zero key xs l u h e = cc
bsearch_sound (suc fuel) key xs l u h e = ground (
  arith,
  bsearch_sound fuel key xs l ((l + u) / 2),
  bsearch_sound fuel key xs ((l + u) / 2 + 1) u,
  strcmp-eq key (get_or xs ((l + u) / 2) []),
  get_or-elem xs ((l + u) / 2) key,
)

lt_ne : ◌≢◌ {A = Ordering} Ordering.eq Ordering.lt
lt_ne = λ h. cc

gt_ne : ◌≢◌ {A = Ordering} Ordering.eq Ordering.gt
gt_ne = λ h. cc

-- A string before the middle of a sorted range stands below the middle.
left_of :
    (xs : List Bytes) (i k : ℕ)
    → Sorted xs
    → k < length xs
    → strcmp (get_or xs k []) (get_or xs i []) ≡ Ordering.lt
    → k < i
left_of xs i k s p e = elim (dec_lt k i) [
  | yes h ↦ h
  | no h ↦ elim (dec_lt i k) [
    | yes g ↦ absurd (Sorted-get_or xs i k s g p (strcmp-lt (get_or xs k []) (get_or xs i []) e))
    | no g ↦
        let same : k ≡ i = omega arith in
        absurd (lt_ne (sym (strcmp_refl (get_or xs i [])) ∙ (rw same at e)))
  ]
]

right_of :
    (xs : List Bytes) (i k : ℕ)
    → Sorted xs
    → i < length xs
    → strcmp (get_or xs k []) (get_or xs i []) ≡ Ordering.gt
    → i < k
right_of xs i k s p e = elim (dec_lt i k) [
  | yes h ↦ h
  | no h ↦ elim (dec_lt k i) [
    | yes g ↦ absurd (Sorted-get_or xs k i s g p e)
    | no g ↦
        let same : k ≡ i = omega arith in
        absurd (gt_ne (sym (strcmp_refl (get_or xs i [])) ∙ (rw same at e)))
  ]
]

bsearch_complete :
    (fuel : ℕ) (xs : List Bytes) (l u k : ℕ)
    → Sorted xs
    → u ≤ length xs
    → l ≤ k
    → k < u
    → u ≤ l + fuel
    → bsearch fuel (get_or xs k []) xs l u ≡ true
unfolding bsearch
bsearch_complete zero xs l u k s h p q f = absurd (omega arith)
bsearch_complete (suc fuel) xs l u k s h p q f =
    let i = (l + u) / 2 in
    ground (
      arith,
      left_of xs i k s (omega arith),
      right_of xs i k s (omega arith),
      bsearch_complete fuel xs l i k s,
      bsearch_complete fuel xs (i + 1) u k s,
    )

-- On a sorted array the search succeeds exactly when a linear search does.
bsearch-elem :
    (key : Bytes) (xs : List Bytes)
    → Sorted xs
    → bsearch (length xs) key xs 0 (length xs) ≡ elem key xs
bsearch-elem key xs s = elim (Bool-cases (elem key xs)) [
  | inl e ↦
      let (k, p, q) = elem-get_or key xs e in
      rw (e, ← q)
        (bsearch_complete (length xs) xs 0 (length xs) k s (omega arith) (omega arith) p
          (omega arith))
  | inr e ↦ elim (Bool-cases (bsearch (length xs) key xs 0 (length xs))) [
    | inl f ↦ f ∙ sym (bsearch_sound (length xs) key xs 0 (length xs) (omega arith) f)
    | inr f ↦ f ∙ sym e
  ]
]

-- What every list of the program satisfies: one that is marked sorted is sorted.
abbrev pub IsOrdered : StringList → Type 0
IsOrdered list = list.sorted ≡ true → Sorted list.strings

empty-IsOrdered : IsOrdered empty
empty-IsOrdered h = tt

pub insert-IsOrdered :
    (strdup_ok realloc_ok : Bool) (list : StringList) (s : Bytes)
    → IsOrdered list
    → IsOrdered (insert strdup_ok realloc_ok list s).0
unfolding insert
insert-IsOrdered false r list s h = h
insert-IsOrdered true false list s h = h
insert-IsOrdered true true list s h = λ e. cc

abbrev fields : List Bytes → Bool → StringList
fields xs b = record { strings = xs; sorted = b }

contains_nil : (b : Bool) (s : Bytes) → contains (fields [] b) s ≡ (fields [] b, false)
unfolding contains
contains_nil b s = refl

contains_sorted :
    (x : Bytes) (xs : List Bytes) (s : Bytes)
    → contains (fields (x ∷ xs) true) s
      ≡ (fields (x ∷ xs) true, bsearch (length (x ∷ xs)) s (x ∷ xs) 0 (length (x ∷ xs)))
unfolding contains
contains_sorted x xs s = ground arith

contains_unsorted :
    (x : Bytes) (xs : List Bytes) (s : Bytes)
    → let ys = qsort (x ∷ xs) in
      contains (fields (x ∷ xs) false) s ≡ (fields ys true, bsearch (length ys) s ys 0 (length ys))
unfolding contains sort
contains_unsorted x xs s = ground arith

contains-fields :
    (xs : List Bytes) (b : Bool) (s : Bytes)
    → IsOrdered (fields xs b)
    → ((contains (fields xs b) s).1 ≡ elem s xs)
      × Perm (contains (fields xs b) s).0.strings xs
      × IsOrdered (contains (fields xs b) s).0
contains-fields [] b s h = rw contains_nil (refl, Perm.refl [], h)
contains-fields (x ∷ xs) true s h =
    rw contains_sorted (bsearch-elem s (x ∷ xs) (h refl), Perm.refl (x ∷ xs), h)
contains-fields (x ∷ xs) false s h = rw contains_unsorted (
  bsearch-elem s (qsort (x ∷ xs)) (qsort-Sorted (x ∷ xs)) ∙ qsort-elem s (x ∷ xs),
  qsort-perm (x ∷ xs),
  λ e. qsort-Sorted (x ∷ xs),
)

-- `stringlist_contains` answers as a linear search does, and leaves the same strings behind, up to
-- their order; what it leaves is marked sorted only if it is.
pub contains-elem :
    (list : StringList) (s : Bytes)
    → IsOrdered list
    → ((contains list s).1 ≡ elem s list.strings)
      × Perm (contains list s).0.strings list.strings
      × IsOrdered (contains list s).0
contains-elem list s h = contains-fields list.strings list.sorted s h

-- A search leaves the strings and their number.
pub contains_keeps :
    (list : StringList) (s : Bytes)
    → ((key : Bytes) → elem key (contains list s).0.strings ≡ elem key list.strings)
      × (length (contains list s).0.strings ≡ length list.strings)
contains_keeps list s = keeps list.strings list.sorted
  where
    keeps :
        (xs : List Bytes) (b : Bool)
        → ((key : Bytes) → elem key (contains (fields xs b) s).0.strings ≡ elem key xs)
          × (length (contains (fields xs b) s).0.strings ≡ length xs)
    keeps [] b = rw contains_nil ((λ key. refl), refl)
    keeps (x ∷ xs) true = rw contains_sorted ((λ key. refl), refl)
    keeps (x ∷ xs) false =
        rw contains_unsorted ((λ key. qsort-elem key (x ∷ xs)), length-qsort (x ∷ xs))

elem-append : (key : Bytes) (xs ys : List Bytes) → elem key (xs ++ ys) ≡ elem key xs || elem key ys
elem-append key [] ys = refl
elem-append key (x ∷ xs) ys = ground (arith, elem-append key xs ys)

or_false : (b : Bool) → (b || false) ≡ b
or_false true = refl
or_false false = refl

-- A successful insertion makes the inserted string, and no other, contained besides those that were;
-- a failed one changes nothing.
pub contains-insert :
    (strdup_ok realloc_ok : Bool) (list : StringList) (s key : Bytes)
    → IsOrdered list
    → let (list', success) = insert strdup_ok realloc_ok list s in
      (success ≡ strdup_ok && realloc_ok)
      × ((contains list' key).1 ≡ (contains list key).1 || (success && str_eq key s))
unfolding insert
contains-insert false r list s key h = (refl, sym (or_false _))
contains-insert true false list s key h = (refl, sym (or_false _))
contains-insert true true list s key h = (
  refl,
  (contains-elem (record { strings = list.strings ++ s ∷ []; sorted = false }) key (λ e. cc)).0
      ∙ elem-append key list.strings (s ∷ [])
      ∙ ap (λ b. b || (str_eq key s || false)) (sym (contains-elem list key h).0)
      ∙ ap (λ b. (contains list key).1 || b) (or_false (str_eq key s)),
)
