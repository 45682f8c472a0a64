-- ===== src/Vfs/Reach/Distinct.antt =====
-- In no state of vfs.c have two inodes the same path.
use mathlib.Core.Path.{subst}
use umsftpd.Prelude.{
  ℕ, ◌+◌, ◌≡◌, refl, sym, ap, ◌∙◌, Bool, true, false, not, List, [], Option, none, some, Bytes,
  length, ltb, codes, if◌then◌else◌, if-cases, Outcome, done, undefined, ◌>>=◌,
}
use umsftpd.Paths.{is_absolute_path, truncate_trailing_slash}
use umsftpd.Paths.Checks.{LstatResult}
use umsftpd.Vfs.{Inode, Vfs, Memory, Site, InternalError, set_error, zeroed, set_cwd, init}
use umsftpd.Vfs.Insert.Step.{Granted}
use umsftpd.Vfs.Insert.Distinct.{add_inode-IsDistinct}
use umsftpd.Vfs.Lookup.{freeze_inodes, freeze_now}
use umsftpd.Vfs.System.{StatResult, stat_failed, stat_done, s_isdir, is_ok, with_handle}
use umsftpd.Vfs.Handles.{chdir, chdir_to}
use umsftpd.Vfs.Node.{VfsError, Handle, Opened}
use umsftpd.Vfs.Node.Mapped.{IsVfs}
use umsftpd.Vfs.Node.Fits.{Fits}
use umsftpd.Vfs.Node.Jail.{open_node_jailed}
use umsftpd.Vfs.Keep.{Sorts}
use umsftpd.Vfs.Unique.{IfDone, paths, IsDistinct}
use umsftpd.Vfs.Freeze.{IsDistinct-perm}
use umsftpd.Vfs.Reach.{
  Reachable, start, configured, added, frozen, changed, opened, Reachable-IsVfs,
}

-- What changing the directory and opening nodes leave alone.
pub record Config : Type 0 where
  pub inodes : List Inode
  pub frozen : Bool
  pub base_flags : ℕ

abbrev pub config_of : Vfs → Config
config_of vfs = record { inodes = vfs.inodes; frozen = vfs.frozen; base_flags = vfs.base_flags }

abbrev pub SameConfig : Vfs → Vfs → Type 0
SameConfig vfs vfs' = config_of vfs' ≡ config_of vfs

set_cwd-config : (mem : Memory) (vfs : Vfs) (path : Bytes) → SameConfig vfs (set_cwd mem vfs path).0
unfolding set_cwd
set_cwd-config mem vfs path =
    let P : Vfs × Bool → Type 0 = λ r. SameConfig vfs r.0 in
    let short = truncate_trailing_slash path in
    let len = length path in
    if-cases P (not (is_absolute_path path)) {x = (set_error vfs InternalError.cwd_illegal, false)}
      (λ _. refl)
      (λ _.
        if-cases P (ltb vfs.cwd_alloced_size (len + 1))
          {y = (record vfs { cwd_path = short }, true)}
          (λ _.
            if-cases P (mem Site.cwd_buffer path)
              {x = (
                record vfs { cwd_path = short; cwd_length = len; cwd_alloced_size = len + 1 },
                true,
              )}
              {y = (set_error vfs InternalError.cwd_out_of_memory, false)} (λ _. refl) (λ _. refl))
          (λ _. refl))

chdir_to-config :
    (mem : Memory) (vfs : Vfs) (path : Bytes) (i : Option Inode) (r : StatResult)
    → SameConfig vfs (chdir_to mem vfs path i r).0
unfolding chdir_to
chdir_to-config mem vfs path (some n) r = set_cwd-config mem vfs path
chdir_to-config mem vfs path none (stat_failed e) = refl
chdir_to-config mem vfs path none (stat_done s) =
    let moved = set_cwd mem vfs path in
    if-cases (λ (r : Vfs × VfsError). SameConfig vfs r.0) (not (s_isdir s))
      {x = (vfs, VfsError.not_a_directory)}
      {y = (moved.0, if not moved.1 then VfsError.internal_error else VfsError.ok)} (λ _. refl)
      (λ _. set_cwd-config mem vfs path)

Fits-config :
    (lstat : Bytes → LstatResult) (vfs : Vfs) (o : Opened) → Fits lstat vfs o → SameConfig vfs o.0
Fits-config lstat vfs (vfs', result, none) (e, failed) = ap config_of e
Fits-config lstat vfs (vfs', result, some h) (ok, same, _) = ap config_of same

pub chdir-config :
    (mem : Memory) (lstat : Bytes → LstatResult) (os_stat : Option Bytes → StatResult) (vfs : Vfs)
    (path : Option Bytes)
    → IsVfs vfs
    → IfDone (λ (r : Vfs × VfsError). SameConfig vfs r.0) (chdir mem lstat os_stat vfs path)
unfolding chdir
chdir-config mem lstat os_stat vfs path v =
    let (o, e, f) = open_node_jailed mem lstat vfs path v in
    let enter : Vfs → Handle → Outcome (Vfs × VfsError) = λ vfs' handle.
      done (chdir_to mem vfs' handle.virtual_path handle.inode (os_stat handle.mapped_path)) in
    subst
      (λ (x : Outcome Opened).
        IfDone (λ (r : Vfs × VfsError). SameConfig vfs r.0)
          (x >>= (λ o. with_handle o (λ vfs' result. (vfs', result)) enter)))
      (sym e) (behind o (Fits-config lstat vfs o f))
  where
    behind :
        (o : Opened)
        → SameConfig vfs o.0
        → IfDone
            (λ (r : Vfs × VfsError). SameConfig vfs r.0)
            (with_handle o
              (λ vfs' result. (vfs', result))
              (λ vfs' handle.
                done (
                  chdir_to mem vfs' handle.virtual_path handle.inode (os_stat handle.mapped_path))))
    behind (vfs', result, none) same =
        if-cases (IfDone (λ (r : Vfs × VfsError). SameConfig vfs r.0)) (not (is_ok result))
          {x = done (vfs', result)} {y = undefined} (λ _. same) (λ _. tt)
    behind (vfs', result, some h) same =
        if-cases (IfDone (λ (r : Vfs × VfsError). SameConfig vfs r.0)) (not (is_ok result))
          {x = done (vfs', result)}
          {y = done (chdir_to mem vfs' h.virtual_path h.inode (os_stat h.mapped_path))} (λ _. same)
          (λ _. chdir_to-config mem vfs' h.virtual_path h.inode (os_stat h.mapped_path) ∙ same)

init-inodes : (mem : Memory) (vfs : Vfs) → init mem ≡ some vfs → vfs.inodes ≡ []
unfolding init
init-inodes mem vfs =
    let moved = set_cwd mem zeroed (codes "/") in
    let made : Vfs = record moved.0 { max_count = 10 } in
    let P = λ (o : Option Vfs). o ≡ some vfs → vfs.inodes ≡ [] in
    if-cases P (not (mem Site.vfs_memory [])) {x = none}
      {y = if not moved.1 then none else some made} (λ _ q. cc)
      (λ _.
        if-cases P (not moved.1) {x = none} {y = some made} (λ _ q. cc)
          (λ _ q.
            ap (λ (o : Option Vfs). inodes_of o) (sym q)
            ∙ ap (λ c. c.inodes) (set_cwd-config mem zeroed (codes "/"))))
  where
    inodes_of : Option Vfs → List Inode
    inodes_of none = []
    inodes_of (some v) = v.inodes

freeze-IsDistinct :
    (qsort : List Inode → List Inode) (vfs : Vfs)
    → Sorts qsort
    → IsDistinct (paths vfs.inodes)
    → IsDistinct (paths (freeze_inodes qsort vfs).inodes)
unfolding freeze_inodes freeze_now
freeze-IsDistinct qsort vfs s d = by_frozen vfs.frozen
  where
    sorted : IsDistinct (paths (if ltb 0 (length vfs.inodes) then qsort vfs.inodes else vfs.inodes))
    sorted =
        if-cases (λ (ns : List Inode). IsDistinct (paths ns)) (ltb 0 (length vfs.inodes))
          (λ _. IsDistinct-perm (s vfs.inodes) d) (λ _. d)

    by_frozen :
        (b : Bool)
        → IsDistinct (
            paths
              (freeze_now qsort
                (if b then set_error vfs InternalError.inode_finalization_error else vfs)).inodes)
    by_frozen true = sorted
    by_frozen false = sorted

kept :
    (vfs vfs' : Vfs)
    → SameConfig vfs vfs'
    → IsDistinct (paths vfs.inodes)
    → IsDistinct (paths vfs'.inodes)
kept vfs vfs' e d = subst (λ c. IsDistinct (paths c.inodes)) (sym e) d

module _ (mem : Memory) (qsort : List Inode → List Inode) where
  -- In every state that is reached, no two inodes have the same path, where memory is granted, `qsort`
  -- rearranges, and inodes are added at paths of non-empty names.
  pub Reachable-IsDistinct :
      (vfs : Vfs)
      → Granted mem
      → Sorts qsort
      → Reachable mem qsort vfs
      → IsDistinct (paths vfs.inodes)
  Reachable-IsDistinct vfs g s (start _ e) =
      subst (λ ns. IsDistinct (paths ns)) (sym (init-inodes mem vfs e)) tt
  Reachable-IsDistinct vfs' g s (configured vfs _ base r e) =
      subst (λ ns. IsDistinct (paths ns)) (sym (ap (λ x. x.inodes) e))
        (Reachable-IsDistinct vfs g s r)
  Reachable-IsDistinct vfs' g s (added vfs _ cs target set reset success h r e) =
      subst (IfDone (λ (x : Vfs × Bool). IsDistinct (paths x.0.inodes))) e
        (add_inode-IsDistinct mem vfs cs target set reset h (Reachable-IsDistinct vfs g s r))
  Reachable-IsDistinct vfs' g s (frozen vfs r) =
      freeze-IsDistinct qsort vfs s (Reachable-IsDistinct vfs g s r)
  Reachable-IsDistinct vfs' g s (changed vfs _ later lstat os_stat path result r e) =
      let v = Reachable-IsVfs mem qsort vfs g s r in
      kept vfs vfs'
        (subst (IfDone (λ (x : Vfs × VfsError). SameConfig vfs x.0)) e
          (chdir-config later lstat os_stat vfs path v))
        (Reachable-IsDistinct vfs g s r)
  Reachable-IsDistinct vfs' g s (opened vfs _ later lstat path result handle r e) =
      let v = Reachable-IsVfs mem qsort vfs g s r in
      let (o, q, f) = open_node_jailed later lstat vfs path v in
      kept vfs vfs'
        (subst (IfDone (λ (x : Opened). SameConfig vfs x.0)) (sym q ∙ e)
          (Fits-config lstat vfs o f))
        (Reachable-IsDistinct vfs g s r)
