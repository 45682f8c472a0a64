-- ===== src/StringList/Sort.antt =====
-- `stringlist_sort` sorts and keeps the strings.
use mathlib.Core.List.{Perm}
use mathlib.Core.List.Perm
use umsftpd.Prelude.{
  suc, Bool, false, ◌||◌, ◌≡◌, ◌≢◌, refl, sym, ap, ◌∙◌, List, [], ◌∷◌, Bytes, All, arith, length,
  str_eq,
}
use Prim.Native.Nat.{Ordering}
use umsftpd.StringList.{insert_sorted, qsort}
use umsftpd.StringList.Order.{strcmp, Le, Le-trans, strcmp-gt}

-- Every string stands before those behind it.
abbrev pub Sorted : List Bytes → Type 0
Sorted [] = Unit
Sorted (x ∷ xs) = All (Le x) xs × Sorted xs

insert_sorted-All :
    (P : Bytes → Type 0) (x : Bytes) (ys : List Bytes) → P x → All P ys → All P (insert_sorted x ys)
unfolding insert_sorted
insert_sorted-All P x [] px h = (px, tt)
insert_sorted-All P x (y ∷ ys) px h = ground (arith, insert_sorted-All P x ys)

All-Le : (x y : Bytes) (zs : List Bytes) → Le x y → All (Le y) zs → All (Le x) zs
All-Le x y [] h k = tt
All-Le x y (z ∷ zs) h k = (Le-trans x y z h k.0, All-Le x y zs h k.1)

pub Le_of_gt : (x y : Bytes) → strcmp x y ≡ Ordering.gt → Le y x
Le_of_gt x y e = λ g. absurd (ordering_ne (sym (strcmp-gt x y e) ∙ g))
  where
    ordering_ne : ◌≢◌ {A = Ordering} Ordering.lt Ordering.gt
    ordering_ne = λ h. cc

insert-Sorted : (x : Bytes) (ys : List Bytes) → Sorted ys → Sorted (insert_sorted x ys)
unfolding insert_sorted
insert-Sorted x [] h = (tt, tt)
insert-Sorted x (y ∷ ys) h = go (strcmp x y) refl (insert-Sorted x ys h.1)
  where
    go :
        (o : Ordering)
        → strcmp x y ≡ o
        → Sorted (insert_sorted x ys)
        → Sorted (insert_sorted x (y ∷ ys))
    go Ordering.gt e ih =
        rw (e, insert_sorted) (insert_sorted-All (Le y) x ys (Le_of_gt x y e) h.0, ih)
    go Ordering.lt e ih =
        let le : Le x y = λ g. ground arith in rw (e, insert_sorted) ((le, All-Le x y ys le h.0), h)
    go Ordering.eq e ih =
        let le : Le x y = λ g. ground arith in rw (e, insert_sorted) ((le, All-Le x y ys le h.0), h)

pub qsort-Sorted : (xs : List Bytes) → Sorted (qsort xs)
unfolding qsort
qsort-Sorted [] = tt
qsort-Sorted (x ∷ xs) = insert-Sorted x (qsort xs) (qsort-Sorted xs)

insert-perm : (x : Bytes) (ys : List Bytes) → Perm (insert_sorted x ys) (x ∷ ys)
unfolding insert_sorted
insert-perm x [] = Perm.refl (x ∷ [])
insert-perm x (y ∷ ys) = go (strcmp x y) refl (insert-perm x ys)
  where
    go :
        (o : Ordering)
        → strcmp x y ≡ o
        → Perm (insert_sorted x ys) (x ∷ ys)
        → Perm (insert_sorted x (y ∷ ys)) (x ∷ y ∷ ys)
    go Ordering.gt e ih = rw (e, insert_sorted) (Perm.trans (Perm.cons y ih) (Perm.swap x y ys))
    go Ordering.lt e ih = rw (e, insert_sorted) (Perm.refl (x ∷ y ∷ ys))
    go Ordering.eq e ih = rw (e, insert_sorted) (Perm.refl (x ∷ y ∷ ys))

pub qsort-perm : (xs : List Bytes) → Perm (qsort xs) xs
unfolding qsort
qsort-perm [] = Perm.refl []
qsort-perm (x ∷ xs) = Perm.trans (insert-perm x (qsort xs)) (Perm.cons x (qsort-perm xs))

-- Linear search.
abbrev pub elem : Bytes → List Bytes → Bool
elem key [] = false
elem key (x ∷ xs) = str_eq key x || elem key xs

insert-elem :
    (key x : Bytes) (ys : List Bytes) → elem key (insert_sorted x ys) ≡ str_eq key x || elem key ys
unfolding insert_sorted
insert-elem key x [] = refl
insert-elem key x (y ∷ ys) = ground (arith, insert-elem key x ys)

pub qsort-elem : (key : Bytes) (xs : List Bytes) → elem key (qsort xs) ≡ elem key xs
unfolding qsort
qsort-elem key [] = refl
qsort-elem key (x ∷ xs) =
    insert-elem key x (qsort xs) ∙ ap (λ b. str_eq key x || b) (qsort-elem key xs)

length-insert_sorted : (x : Bytes) (ys : List Bytes) → length (insert_sorted x ys) ≡ suc (length ys)
unfolding insert_sorted
length-insert_sorted x [] = refl
length-insert_sorted x (y ∷ ys) = ground (arith, length-insert_sorted x ys)

pub length-qsort : (xs : List Bytes) → length (qsort xs) ≡ length xs
unfolding qsort
length-qsort [] = refl
length-qsort (x ∷ xs) = length-insert_sorted x (qsort xs) ∙ ap suc (length-qsort xs)
