-- ===== src/Vfs/Reach.antt =====
-- The states that vfs.c reaches from `vfs_init` by adding inodes, freezing them, changing the directory
-- and opening nodes, in any order.
pub mod Distinct
use mathlib.Core.Path.{subst}
use umsftpd.Prelude.{
  ℕ, ◌≡◌, sym, ap, ◌∙◌, Bool, List, Option, none, some, Bytes, All, Outcome, done, undefined,
}
use umsftpd.Paths.Names.{IsName, show}
use umsftpd.Paths.Checks.{LstatResult}
use umsftpd.Vfs.{Inode, Vfs, Memory, init}
use umsftpd.Vfs.Insert.{add_inode}
use umsftpd.Vfs.Insert.Step.{IsTable, Granted}
use umsftpd.Vfs.Lookup.{freeze_inodes}
use umsftpd.Vfs.System.{StatResult}
use umsftpd.Vfs.Handles.{chdir}
use umsftpd.Vfs.Node.{VfsError, Handle, Opened, open_node}
use umsftpd.Vfs.Node.Mapped.{IsVfs}
use umsftpd.Vfs.Node.Fits.{Fits, Settles}
use umsftpd.Vfs.Node.Jail.{open_node_jailed}
use umsftpd.Vfs.Keep.{
  carried, error_only, Sorts, init-IsVfs, freeze-IsVfs, add_inode-IsVfs, chdir-IsVfs,
}

abbrev state : {A : Type 0} → Vfs → Outcome (Vfs × A) → Vfs
state d (done r) = r.0
state d undefined = d

abbrev opened_state : Vfs → Outcome Opened → Vfs
opened_state d (done o) = o.0
opened_state d undefined = d

settled :
    (lstat : Bytes → LstatResult) (vfs : Vfs) (o : Opened)
    → Fits lstat vfs o
    → IsVfs vfs
    → IsVfs o.0
settled lstat vfs (vfs', result, none) (e, failed) v = error_only vfs vfs' e v
settled lstat vfs (vfs', result, some h) (ok, same, _) v = subst IsVfs (sym same) v

module _ (mem : Memory) (qsort : List Inode → List Inode) where
  -- The states of a file system. Where the directory is changed or a node is opened, memory, `lstat` and
  -- `stat` are those of that time.
  pub data Reachable : Vfs → Type 0 where
    start : (vfs : Vfs) → init mem ≡ some vfs → Reachable vfs
    configured :
        (vfs vfs' : Vfs) (base : ℕ)
        → Reachable vfs
        → vfs' ≡ record vfs { base_flags = base }
        → Reachable vfs'
    added :
        (vfs vfs' : Vfs) (cs : List Bytes) (target : Option Bytes) (set reset : ℕ) (success : Bool)
        → All IsName cs
        → Reachable vfs
        → add_inode mem vfs (show cs) target set reset ≡ done (vfs', success)
        → Reachable vfs'
    frozen : (vfs : Vfs) → Reachable vfs → Reachable (freeze_inodes qsort vfs)
    changed :
        (vfs vfs' : Vfs) (later : Memory) (lstat : Bytes → LstatResult)
        (stat : Option Bytes → StatResult) (path : Option Bytes) (result : VfsError)
        → Reachable vfs
        → chdir later lstat stat vfs path ≡ done (vfs', result)
        → Reachable vfs'
    opened :
        (vfs vfs' : Vfs) (later : Memory) (lstat : Bytes → LstatResult) (path : Option Bytes)
        (result : VfsError) (handle : Option Handle)
        → Reachable vfs
        → open_node later lstat vfs path ≡ done (vfs', result, handle)
        → Reachable vfs'

  -- Whatever the order of the operations, the file system is well formed, where memory is granted,
  -- `qsort` rearranges, and inodes are added at paths of non-empty names.
  pub Reachable-IsVfs : (vfs : Vfs) → Granted mem → Sorts qsort → Reachable vfs → IsVfs vfs
  Reachable-IsVfs vfs g s (start _ e) = init-IsVfs mem vfs e
  Reachable-IsVfs vfs' g s (configured vfs _ base r e) =
      carried vfs vfs'
        (subst IsTable (sym (ap (λ x. x.inodes) e)) (Reachable-IsVfs vfs g s r).table)
        (ap (λ x. x.cwd_path) e) (Reachable-IsVfs vfs g s r)
  Reachable-IsVfs vfs' g s (added vfs _ cs target set reset success h r e) =
      let (x, ok, q, v) =
        add_inode-IsVfs mem vfs cs target set reset g h (Reachable-IsVfs vfs g s r) in
      subst IsVfs (ap (state vfs) (sym q ∙ e)) v
  Reachable-IsVfs vfs' g s (frozen vfs r) = freeze-IsVfs qsort vfs s (Reachable-IsVfs vfs g s r)
  Reachable-IsVfs vfs' g s (changed vfs _ later lstat stat path result r e) =
      let (x, code, q, v) = chdir-IsVfs later lstat stat vfs path (Reachable-IsVfs vfs g s r) in
      subst IsVfs (ap (state vfs) (sym q ∙ e)) v
  Reachable-IsVfs vfs' g s (opened vfs _ later lstat path result handle r e) =
      let v = Reachable-IsVfs vfs g s r in
      let (o, q, f) = open_node_jailed later lstat vfs path v in
      subst IsVfs (ap (opened_state vfs) (sym q ∙ e)) (settled lstat vfs o f v)

  -- In every state that is reached, opening a node settles as `open_node_jailed` says, whatever memory
  -- and `lstat` do at that time: it returns, and a handle stays among the mounted trees, the links and the
  -- filters that are configured. On the way to the state memory is granted, `qsort` rearranges, and inodes
  -- are added at paths of non-empty names.
  pub open_node-Reachable :
      (vfs : Vfs) (later : Memory) (later_lstat : Bytes → LstatResult) (path : Option Bytes)
      → Granted mem
      → Sorts qsort
      → Reachable vfs
      → Settles later_lstat vfs (open_node later later_lstat vfs path)
  open_node-Reachable vfs later later_lstat path g s r =
      open_node_jailed later later_lstat vfs path (Reachable-IsVfs vfs g s r)
