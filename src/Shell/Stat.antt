-- ===== src/Shell/Stat.antt =====
-- `vfs_stat` (vfs.c) always returns in a well-formed file system, as the shell of vfsdebug.c needs it.
use umsftpd.Prelude.{
  ◌≡◌, refl, ap, ◌∙◌, List, [], ◌∷◌, ◌++◌, Option, none, some, Bytes, Outcome, done, ◌>>=◌,
}
use umsftpd.Paths.{slash}
use umsftpd.Paths.Names.{show, render}
use umsftpd.Paths.Checks.{LstatResult, const_basename}
use umsftpd.Paths.Checks.Laws.{const_basename-slash}
use umsftpd.Vfs.{Inode, Vfs, Memory}
use umsftpd.Vfs.System.{StatResult, stat_failed, stat_done, errno_to_error, with_handle}
use umsftpd.Vfs.Node.{VfsError, Handle, Opened}
use umsftpd.Vfs.Node.Fits.{Fits}
use umsftpd.Vfs.Node.Jail.{open_node_jailed}
use umsftpd.Vfs.Node.Mapped.{IsVfs}
use umsftpd.Vfs.Keep.{error_only, is_ok-false}
use umsftpd.Vfs.Stat.{Dirent, short_name, stat_virtual_directory, stat_statbuf, stat}

module _ (os_stat : Option Bytes → StatResult) where
  abbrev StatOutcome : Type 0
  StatOutcome = Vfs × VfsError × Option Dirent

  -- What `vfs_stat` finds for a handle with a base name.
  abbrev stated : Vfs → Handle → Bytes → Option Inode → StatResult → StatOutcome
  stated vfs handle name i result = elim i [
    | some inode ↦ (vfs, VfsError.ok, some (stat_virtual_directory name handle.flags))
    | none ↦ elim result [
      | stat_failed e ↦ (vfs, errno_to_error e, none)
      | stat_done s ↦ (vfs, VfsError.ok, some (stat_statbuf s (short_name name) handle.flags))
    ]
  ]

  stated-IsVfs :
      (vfs : Vfs) (handle : Handle) (name : Bytes) (i : Option Inode) (result : StatResult)
      → IsVfs vfs
      → IsVfs (stated vfs handle name i result).0
  stated-IsVfs vfs handle name (some inode) result v = v
  stated-IsVfs vfs handle name none (stat_failed e) v = v
  stated-IsVfs vfs handle name none (stat_done s) v = v

  unfoldable behind : Vfs → Handle → Outcome StatOutcome
  behind vfs handle = do
    name ← const_basename handle.virtual_path
    done (stated vfs handle name handle.inode (os_stat handle.mapped_path))

  abbrev Stats : Outcome StatOutcome → Type 0
  Stats o = (r : StatOutcome) × (o ≡ done r) × IsVfs r.0

  show-slash : (cs : List Bytes) → (s : Bytes) × (show cs ≡ slash ∷ s)
  show-slash [] = ([], refl)
  show-slash (c ∷ cs) = (c ++ render cs, refl)

  behind-Stats :
      (vfs : Vfs) (handle : Handle) (cs : List Bytes)
      → handle.virtual_path ≡ show cs
      → IsVfs vfs
      → Stats (behind vfs handle)
  unfolding behind
  behind-Stats vfs handle cs e v =
      let (s, absolute) = show-slash cs in
      let (name, based) = const_basename-slash s in
      (
        stated vfs handle name handle.inode (os_stat handle.mapped_path),
        ap (λ b. b >>= (λ n. done (stated vfs handle n handle.inode (os_stat handle.mapped_path))))
            (ap const_basename (e ∙ absolute) ∙ based),
        stated-IsVfs vfs handle name handle.inode (os_stat handle.mapped_path) v,
      )

  opened-Stats :
      (lstat : Bytes → LstatResult) (vfs : Vfs) (opened : Opened)
      → Fits lstat vfs opened
      → IsVfs vfs
      → Stats (with_handle opened (λ vfs' result. (vfs', result, none)) behind)
  opened-Stats lstat vfs (vfs', result, none) (e, bad) v =
      ((vfs', result, none), rw (is_ok-false result bad) refl, error_only vfs vfs' e v)
  opened-Stats lstat vfs (vfs', result, some h) (ok, same, (cs, clean, path, allowed, jail, links))
        v =
      let (r, e, w) = behind-Stats vfs h cs path v in (r, rw ok (ap (λ x. behind x h) same ∙ e), w)

  pub stat-IsVfs :
      (mem : Memory) (lstat : Bytes → LstatResult) (vfs : Vfs) (path : Option Bytes)
      → IsVfs vfs
      → Stats (stat mem lstat os_stat vfs path)
  unfolding stat behind
  stat-IsVfs mem lstat vfs path v =
      let (opened, e, f) = open_node_jailed mem lstat vfs path v in
      let (r, q, w) = opened-Stats lstat vfs opened f v in
      (
        r,
        ap (λ o. o >>= (λ x. with_handle x (λ vfs' result. (vfs', result, none)) behind)) e ∙ q,
        w,
      )
