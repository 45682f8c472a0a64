-- ===== src/Vfs/Freeze.antt =====
-- vfs.c: the order in which `vfs_freeze_inodes` leaves the inodes.
use mathlib.Core.List.{Permᴰ}
use mathlib.Core.List.Permᴰ.{nil, cons, swap, trans}
use mathlib.Core.Path.{subst}
use umsftpd.Prelude.{
  ◌≡◌, ◌≢◌, refl, sym, ap, ◌∙◌, Bool, true, false, List, [], ◌∷◌, Option, some, Bytes, All, length,
  ltb, arith, if◌then◌else◌, if-cases,
}
use umsftpd.Paths.Names.{IsName, render}
use umsftpd.StringList.Order.{strcmp, strcmp-eq, Ordering}
use umsftpd.Vfs.{Inode, Vfs, InternalError, set_error}
use umsftpd.Vfs.Table.{Entry, IsNode, entries, entry_of, entries-cons, eq_names, eq_names_iff}
use umsftpd.Vfs.Insert.Step.{IsTable, SameEntries}
use umsftpd.Vfs.Lookup.{freeze_inodes, freeze_now}
use umsftpd.Vfs.Keep.{Sorts, IsTable-perm}
use umsftpd.Vfs.Unique.{paths, IsDistinct}

-- `vfs_inode_comparator`
abbrev pub inode_comparator : Inode → Inode → Ordering
inode_comparator inode1 inode2 = strcmp inode1.virtual_path inode2.virtual_path

-- Each inode is followed by none that is less.
abbrev pub Ascends : List Inode → Type 0
Ascends [] = Unit
Ascends (n ∷ ns) = All (λ (m : Inode). inode_comparator n m ≢ Ordering.gt) ns × Ascends ns

-- As documented, `qsort` rearranges what it is given into ascending order.
abbrev pub SortsUp : (List Inode → List Inode) → Type 0
SortsUp qsort = Sorts qsort × ((ns : List Inode) → Ascends (qsort ns))

-- Each inode stands before all that follow.
abbrev pub Rises : List Inode → Type 0
Rises [] = Unit
Rises (n ∷ ns) =
    All (λ (m : Inode). strcmp n.virtual_path m.virtual_path ≡ Ordering.lt) ns × Rises ns

Ascends-Rises : (ns : List Inode) → Ascends ns → IsDistinct (paths ns) → Rises ns
Ascends-Rises [] a d = tt
Ascends-Rises (n ∷ ns) (l, a) (k, d) = (before ns l k, Ascends-Rises ns a d)
  where
    before :
        (ms : List Inode)
        → All (λ (m : Inode). inode_comparator n m ≢ Ordering.gt) ms
        → All (λ (q : Bytes). n.virtual_path ≢ q) (paths ms)
        → All (λ (m : Inode). strcmp n.virtual_path m.virtual_path ≡ Ordering.lt) ms
    before [] l k = tt
    before (m ∷ ms) (a, l) (b, k) = (less (inode_comparator n m) refl, before ms l k)
      where
        less :
            (o : Ordering)
            → inode_comparator n m ≡ o
            → strcmp n.virtual_path m.virtual_path ≡ Ordering.lt
        less Ordering.lt e = e
        less Ordering.eq e = absurd (b (strcmp-eq n.virtual_path m.virtual_path e))
        less Ordering.gt e = absurd (a e)

-- Rearranging a table changes neither that its paths are distinct nor the map that it stands for.
All-perm :
    (P : Bytes → Type 0) {xs ys : List Inode} → Permᴰ xs ys → All P (paths ys) → All P (paths xs)
All-perm P nil h = tt
All-perm P (cons e p) (a, h) = (subst (λ (n : Inode). P n.virtual_path) (sym e) a, All-perm P p h)
All-perm P (swap e f) (a, (b, h)) =
    let at : (m n : Inode) → m ≡ n → P n.virtual_path → P m.virtual_path =
      λ m n q. subst (λ (x : Inode). P x.virtual_path) (sym q) in
    (at _ _ e b, (at _ _ f a, h))
All-perm P (trans p q) h = All-perm P p (All-perm P q h)

swapped : {a b a' b' : Inode} {l : List Inode} → a ≡ b' → b ≡ a' → a ∷ b ∷ l ≡ b' ∷ a' ∷ l
swapped e f = cc

differ : {p q : Bytes} → p ≢ q → q ≢ p
differ h e = h (sym e)

pub IsDistinct-perm :
    {xs ys : List Inode} → Permᴰ xs ys → IsDistinct (paths ys) → IsDistinct (paths xs)
IsDistinct-perm nil d = tt
IsDistinct-perm (cons {a = a} {b = b} {l₂ = ys} e p) (k, d) = (
  All-perm (λ (q : Bytes). a.virtual_path ≢ q) p
      (subst (λ (n : Inode). All (λ (q : Bytes). n.virtual_path ≢ q) (paths ys)) (sym e) k),
  IsDistinct-perm p d,
)
IsDistinct-perm (swap e f) ((ab, k), (l, d)) =
    subst (λ (ns : List Inode). IsDistinct (paths ns)) (sym (swapped e f)) ((differ ab, l), (k, d))
IsDistinct-perm (trans p q) d = IsDistinct-perm p (IsDistinct-perm q d)

if_swapped :
    (b c : Bool) (x y : Entry) (z : Option Entry)
    → ((b ≡ true) → (c ≡ true) → ⊥)
    → (if b then some x else if c then some y else z)
      ≡ (if c then some y else if b then some x else z)
if_swapped true true x y z h = absurd (h refl refl)
if_swapped true false x y z h = refl
if_swapped false true x y z h = refl
if_swapped false false x y z h = refl

entries-swap :
    (a b : Inode) (l : List Inode) (es : List Bytes)
    → IsNode a
    → IsNode b
    → a.virtual_path ≢ b.virtual_path
    → All IsName es
    → entries (a ∷ b ∷ l) es ≡ entries (b ∷ a ∷ l) es
entries-swap a b l es v w h k =
    entries-cons a (b ∷ l) v es k
    ∙ ap (λ o. if eq_names v.names es then some (entry_of a) else o) (entries-cons b l w es k)
    ∙ if_swapped (eq_names v.names es) (eq_names w.names es) (entry_of a) (entry_of b)
        (entries l es)
        (λ e f. h (
          v.path
          ∙ ap render ((eq_names_iff v.names es).0 e ∙ sym ((eq_names_iff w.names es).0 f))
          ∙ sym w.path))
    ∙ ap (λ o. if eq_names w.names es then some (entry_of b) else o) (sym (entries-cons a l v es k))
    ∙ sym (entries-cons b (a ∷ l) w es k)

entries-perm :
    {xs ys : List Inode} → Permᴰ xs ys → IsTable ys → IsDistinct (paths ys) → SameEntries xs ys
entries-perm nil t d es k = refl
entries-perm (cons {b = b} {l₁ = xs} {l₂ = ys} e p) (v, t) (_, d) es k =
    ap (λ n. entries (n ∷ xs) es) e
    ∙ entries-cons b xs v es k
    ∙ ap (λ o. if eq_names v.names es then some (entry_of b) else o) (entries-perm p t d es k)
    ∙ sym (entries-cons b ys v es k)
entries-perm (swap {a' = a} {b' = b} {l = l} e f) (v, (w, t)) ((ab, _), _) es k =
    ap (λ ns. entries ns es) (swapped e f) ∙ entries-swap b a l es w v (differ ab) k
entries-perm (trans p q) t d es k =
    entries-perm p (IsTable-perm q t) (IsDistinct-perm q d) es k ∙ entries-perm q t d es k

abbrev Settled : Vfs → List Inode → Type 0
Settled vfs ns = SameEntries ns vfs.inodes × Rises ns

-- Freezing a well-formed table whose paths are distinct leaves the map of the inodes as it is, and the
-- inodes in strictly ascending order of their paths. `qsort` is as documented for the comparator.
pub freeze_inodes_lem :
    (qsort : List Inode → List Inode) (vfs : Vfs)
    → SortsUp qsort
    → IsTable vfs.inodes
    → IsDistinct (paths vfs.inodes)
    → ((freeze_inodes qsort vfs).frozen ≡ true)
      × SameEntries (freeze_inodes qsort vfs).inodes vfs.inodes
      × Rises (freeze_inodes qsort vfs).inodes
unfolding freeze_inodes freeze_now
freeze_inodes_lem qsort vfs (s, up) t d = by_frozen vfs.frozen
  where
    empty_rises : (ns : List Inode) → ltb 0 (length ns) ≡ false → Rises ns
    empty_rises [] e = tt
    empty_rises (n ∷ ns) e = absurd (ground arith)

    sorted : Settled vfs (if ltb 0 (length vfs.inodes) then qsort vfs.inodes else vfs.inodes)
    sorted =
        if-cases (Settled vfs) (ltb 0 (length vfs.inodes)) {x = qsort vfs.inodes} {y = vfs.inodes}
          (λ _. (
            entries-perm (s vfs.inodes) t d,
            Ascends-Rises (qsort vfs.inodes) (up vfs.inodes) (IsDistinct-perm (s vfs.inodes) d),
          ))
          (λ e. ((λ es k. refl), empty_rises vfs.inodes e))

    by_frozen :
        (b : Bool)
        → let vfs' : Vfs =
            if b then set_error vfs InternalError.inode_finalization_error else vfs in
          ((freeze_now qsort vfs').frozen ≡ true)
          × SameEntries (freeze_now qsort vfs').inodes vfs.inodes
          × Rises (freeze_now qsort vfs').inodes
    by_frozen true = (refl, sorted.0, sorted.1)
    by_frozen false = (refl, sorted.0, sorted.1)
