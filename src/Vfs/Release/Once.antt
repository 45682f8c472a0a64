-- ===== src/Vfs/Release/Once.antt =====
-- `vfs_free` (vfs.c) and what a file system owns.
use mathlib.Core.List.{map}
use umsftpd.Prelude.{
  ◌+◌, ◌≡◌, ◌≢◌, refl, sym, ap, ◌∙◌, Bool, true, false, not, ◌&&◌, List, [], ◌∷◌, ◌++◌, Option,
  none, some, Bytes, All, length, ltb, ◌==◌, str_eq, str_eq_iff, if◌then◌else◌, if-cases, Outcome,
  done, arith,
}
use umsftpd.StringList.{StringList}
use umsftpd.Vfs.{Inode, Vfs}
use umsftpd.Vfs.Insert.Step.{IsTable}
use umsftpd.Vfs.Unique.{paths, IsDistinct}
use umsftpd.Vfs.Insert.Step.{Granted}
use umsftpd.Vfs.Keep.{Sorts}
use umsftpd.Vfs.{Memory}
use umsftpd.Vfs.Reach.{Reachable, Reachable-IsVfs}
use umsftpd.Vfs.Reach.Distinct.{Reachable-IsDistinct}
use umsftpd.Vfs.Release.{Field, Block, free_inode, free_inodes, array_block, free}
use umsftpd.Vfs.Release.Fields.{same_field, count, times, holds, count-append, fields, count-fields}

abbrev pub same_block : Block → Block → Bool
same_block Block.vfs_struct Block.vfs_struct = true
same_block Block.cwd_path Block.cwd_path = true
same_block Block.inode_array Block.inode_array = true
same_block (Block.of_inode p f) (Block.of_inode q g) = str_eq p q && same_field f g
same_block _ _ = false

-- The blocks of one inode among all blocks.
count-map :
    (p q : Bytes) (f : Field) (fs : List Field)
    → count same_block (Block.of_inode p f) (map (Block.of_inode q) fs)
      ≡ (if str_eq p q then count same_field f fs else 0)
unfolding count
count-map p q f [] = ground arith
count-map p q f (g ∷ fs) =
    let e : count same_block (Block.of_inode p f) (map (Block.of_inode q) fs)
        ≡ (if str_eq p q then count same_field f fs else 0) =
      count-map p q f fs in
    ground arith

-- The inode of a path.
unfoldable pub inode_at : List Inode → Bytes → Option Inode
inode_at [] p = none
inode_at (n ∷ ns) p = if str_eq p n.virtual_path then some n else inode_at ns p

-- Whether the inodes of a table own a block.
unfoldable pub of_table : List Inode → Block → Bool
of_table ns (Block.of_inode p f) = elim (inode_at ns p) [
  | none ↦ false
  | some n ↦ holds n.target_path n.virtual_subdirs f
]
of_table ns _ = false

-- Whether a file system owns a block.
abbrev pub owns : Vfs → Block → Bool
owns vfs Block.vfs_struct = true
owns vfs Block.cwd_path = not (vfs.cwd_alloced_size == 0)
owns vfs Block.inode_array = ltb 0 (length vfs.inodes)
owns vfs (Block.of_inode p f) = of_table vfs.inodes (Block.of_inode p f)

absent :
    (ns : List Inode) (q p : Bytes)
    → All (λ (r : Bytes). q ≢ r) (paths ns)
    → str_eq p q ≡ true
    → inode_at ns p ≡ none
unfolding inode_at
absent [] q p h e = refl
absent (n ∷ ns) q p (apart, h) e =
    if-cases (λ (o : Option Inode). o ≡ none) (str_eq p n.virtual_path)
      (λ same. absurd (apart (sym ((str_eq_iff p q).0 e) ∙ (str_eq_iff p n.virtual_path).0 same)))
      (λ _. absent ns q p h e)

count-none : (b : Block) → count same_block b [] ≡ times (of_table [] b)
unfolding count times of_table inode_at
count-none Block.vfs_struct = refl
count-none Block.cwd_path = refl
count-none Block.inode_array = refl
count-none (Block.of_inode p f) = refl

count-map-none :
    (b : Block) (q : Bytes) (fs : List Field)
    → ((g : Field) → same_block b (Block.of_inode q g) ≡ false)
    → count same_block b (map (Block.of_inode q) fs) ≡ 0
unfolding count
count-map-none b q [] h = refl
count-map-none b q (g ∷ fs) h = rw (h g) (count-map-none b q fs h)

-- The blocks of an inode in front of those of the others.
count-inode :
    (n : Inode) (ns : List Inode) (list : StringList)
    → n.virtual_subdirs ≡ some list
    → All (λ (r : Bytes). n.virtual_path ≢ r) (paths ns)
    → (b : Block)
    → count same_block b (map (Block.of_inode n.virtual_path) (fields n.target_path list))
        + times (of_table ns b)
      ≡ times (of_table (n ∷ ns) b)
unfolding of_table inode_at times
count-inode n ns list l apart Block.vfs_struct =
    rw (count-map-none Block.vfs_struct n.virtual_path (fields n.target_path list) (λ g. refl)) refl
count-inode n ns list l apart Block.cwd_path =
    rw (count-map-none Block.cwd_path n.virtual_path (fields n.target_path list) (λ g. refl)) refl
count-inode n ns list l apart Block.inode_array =
    rw (count-map-none Block.inode_array n.virtual_path (fields n.target_path list) (λ g. refl))
      refl
count-inode n ns list l apart (Block.of_inode p f) =
    rw (count-map p n.virtual_path f (fields n.target_path list))
      (by_path (str_eq p n.virtual_path) (absent ns n.virtual_path p apart))
  where
    owned : Option Inode → Bool
    owned o = elim o [ none ↦ false | some m ↦ holds m.target_path m.virtual_subdirs f ]

    by_path :
        (same : Bool)
        → (same ≡ true → inode_at ns p ≡ none)
        → (if same then count same_field f (fields n.target_path list) else 0)
            + times (owned (inode_at ns p))
          ≡ times (owned (if same then some n else inode_at ns p))
    by_path true none_else = rw (none_else refl, l, count-fields n.target_path list f) (omega arith)
    by_path false none_else = omega arith

free_inode-fields :
    (n : Inode) (list : StringList)
    → n.virtual_subdirs ≡ some list
    → free_inode n ≡ done (fields n.target_path list)
unfolding free_inode fields
free_inode-fields n list l = rw l refl

count-free_inodes :
    (ns : List Inode)
    → IsTable ns
    → IsDistinct (paths ns)
    → (blocks : List Block) × (free_inodes ns ≡ done blocks)
      × ((b : Block) → count same_block b blocks ≡ times (of_table ns b))
unfolding free_inodes
count-free_inodes [] t d = ([], refl, count-none)
count-free_inodes (n ∷ ns) (v, t) (apart, d) =
    let (blocks, e, counted) = count-free_inodes ns t d in
    let own = map (Block.of_inode n.virtual_path) (fields n.target_path v.list) in
    (
      own ++ blocks,
      rw (free_inode-fields n v.list v.listed, e) refl,
      λ b.
          count-append same_block b own blocks
          ∙ ap (λ c. count same_block b own + c) (counted b)
          ∙ count-inode n ns v.list v.listed apart b,
    )

-- What is released, each block that is owned once and no other.
abbrev pub ReleasesOnce : Vfs → Outcome (List Block) → Type 0
ReleasesOnce vfs result =
    (blocks : List Block) × (result ≡ done blocks)
    × ((b : Block) → count same_block b blocks ≡ (if owns vfs b then 1 else 0))

count-free :
    (vfs : Vfs)
    → IsTable vfs.inodes
    → IsDistinct (paths vfs.inodes)
    → ReleasesOnce vfs (free (some vfs))
unfolding free times count of_table
count-free vfs t d =
    let (blocks, e, counted) = count-free_inodes vfs.inodes t d in
    let cwd : List Block = if vfs.cwd_alloced_size == 0 then [] else Block.cwd_path ∷ [] in
    let array = array_block vfs.inodes in
    let own = Block.vfs_struct ∷ [] in
    (
      cwd ++ blocks ++ array ++ own,
      rw e refl,
      λ b.
          count-append same_block b (cwd ++ blocks ++ array) own
          ∙ ap (λ c. c + count same_block b own)
              (count-append same_block b (cwd ++ blocks) array
                ∙ ap (λ c. c + count same_block b array)
                    (count-append same_block b cwd blocks
                      ∙ ap (λ c. count same_block b cwd + c) (counted b)))
          ∙ sum b,
    )
  where
    sum :
        (b : Block)
        → count same_block b (if vfs.cwd_alloced_size == 0 then [] else Block.cwd_path ∷ [])
            + times (of_table vfs.inodes b)
            + count same_block b (array_block vfs.inodes)
            + count same_block b (Block.vfs_struct ∷ [])
          ≡ times (owns vfs b)
    sum Block.vfs_struct = ground arith
    sum Block.cwd_path = ground arith
    sum Block.inode_array = ground arith
    sum (Block.of_inode p f) = ground arith

module _ (mem : Memory) (qsort : List Inode → List Inode) where
  -- In every state that is reached, vfs_free comes to its end without touching a list that is NULL, and
  -- releases each block of memory that the file system owns exactly once, and nothing else, where memory
  -- is granted, `qsort` rearranges, and inodes are added at paths of non-empty names.
  pub free-ReleasesOnce :
      (vfs : Vfs)
      → Granted mem
      → Sorts qsort
      → Reachable mem qsort vfs
      → ReleasesOnce vfs (free (some vfs))
  free-ReleasesOnce vfs g s r =
      count-free vfs (Reachable-IsVfs mem qsort vfs g s r).table
        (Reachable-IsDistinct mem qsort vfs g s r)
