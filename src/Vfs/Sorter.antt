-- ===== src/Vfs/Sorter.antt =====
-- A sorting routine for the inodes of vfs.c, for the tests.
use mathlib.Core.List.Permᴰ
use mathlib.Core.List.{Permᴰ}
use mathlib.Core.List.Permᴰ.{cons, swap, trans}
use umsftpd.Prelude.{◌≡◌, ◌≢◌, refl, List, [], ◌∷◌, All, arith}
use umsftpd.StringList.Order.{Ordering, Le-trans}
use umsftpd.StringList.Sort.{Le_of_gt}
use umsftpd.Vfs.{Inode}
use umsftpd.Vfs.Freeze.{inode_comparator, Ascends, SortsUp}

insert_inode : Inode → List Inode → List Inode
insert_inode n [] = n ∷ []
insert_inode n (m ∷ ms) = elim (inode_comparator n m) [
  | Ordering.gt ↦ m ∷ insert_inode n ms
  | _ ↦ n ∷ m ∷ ms
]

unfoldable pub sort_inodes : List Inode → List Inode
unfolding insert_inode
sort_inodes [] = []
sort_inodes (n ∷ ns) = insert_inode n (sort_inodes ns)

abbrev At : Inode → Inode → Type 0
At n m = inode_comparator n m ≢ Ordering.gt

insert_inode-All :
    (k n : Inode) (ms : List Inode)
    → At k n
    → All (λ (m : Inode). At k m) ms
    → All (λ (m : Inode). At k m) (insert_inode n ms)
unfolding insert_inode
insert_inode-All k n [] p h = (p, tt)
insert_inode-All k n (m ∷ ms) p h = by_order (inode_comparator n m) (insert_inode-All k n ms p h.1)
  where
    by_order :
        (o : Ordering)
        → All (λ (m : Inode). At k m) (insert_inode n ms)
        → All
            (λ (m : Inode). At k m)
            (elim o [ Ordering.gt ↦ m ∷ insert_inode n ms | _ ↦ n ∷ m ∷ ms ])
    by_order Ordering.gt ih = (h.0, ih)
    by_order Ordering.lt ih = (p, h)
    by_order Ordering.eq ih = (p, h)

before_all :
    (n m : Inode) (ms : List Inode)
    → At n m
    → All (λ (k : Inode). At m k) ms
    → All (λ (k : Inode). At n k) ms
before_all n m [] p h = tt
before_all n m (k ∷ ks) p h =
    (Le-trans n.virtual_path m.virtual_path k.virtual_path p h.0, before_all n m ks p h.1)

insert_inode-Ascends : (n : Inode) (ms : List Inode) → Ascends ms → Ascends (insert_inode n ms)
unfolding insert_inode
insert_inode-Ascends n [] h = (tt, tt)
insert_inode-Ascends n (m ∷ ms) h =
    by_order (inode_comparator n m) refl (insert_inode-Ascends n ms h.1)
  where
    by_order :
        (o : Ordering)
        → inode_comparator n m ≡ o
        → Ascends (insert_inode n ms)
        → Ascends (elim o [ Ordering.gt ↦ m ∷ insert_inode n ms | _ ↦ n ∷ m ∷ ms ])
    by_order Ordering.gt e ih =
        (insert_inode-All m n ms (Le_of_gt n.virtual_path m.virtual_path e) h.0, ih)
    by_order Ordering.lt e ih =
        let le : At n m = λ g. ground arith in ((le, before_all n m ms le h.0), h)
    by_order Ordering.eq e ih =
        let le : At n m = λ g. ground arith in ((le, before_all n m ms le h.0), h)

insert_inode-perm : (n : Inode) (ms : List Inode) → Permᴰ (insert_inode n ms) (n ∷ ms)
unfolding insert_inode
insert_inode-perm n [] = Permᴰ.refl (n ∷ [])
insert_inode-perm n (m ∷ ms) = by_order (inode_comparator n m) (insert_inode-perm n ms)
  where
    by_order :
        (o : Ordering)
        → Permᴰ (insert_inode n ms) (n ∷ ms)
        → Permᴰ (elim o [ Ordering.gt ↦ m ∷ insert_inode n ms | _ ↦ n ∷ m ∷ ms ]) (n ∷ m ∷ ms)
    by_order Ordering.gt ih = trans (cons refl ih) (swap refl refl)
    by_order Ordering.lt ih = Permᴰ.refl (n ∷ m ∷ ms)
    by_order Ordering.eq ih = Permᴰ.refl (n ∷ m ∷ ms)

sort_inodes-Ascends : (ns : List Inode) → Ascends (sort_inodes ns)
unfolding sort_inodes
sort_inodes-Ascends [] = tt
sort_inodes-Ascends (n ∷ ns) = insert_inode-Ascends n (sort_inodes ns) (sort_inodes-Ascends ns)

sort_inodes-perm : (ns : List Inode) → Permᴰ (sort_inodes ns) ns
unfolding sort_inodes
sort_inodes-perm [] = Permᴰ.refl []
sort_inodes-perm (n ∷ ns) =
    trans (insert_inode-perm n (sort_inodes ns)) (cons refl (sort_inodes-perm ns))

pub sort_inodes-SortsUp : SortsUp sort_inodes
sort_inodes-SortsUp = (sort_inodes-perm, sort_inodes-Ascends)
