-- ===== src/Vfs/Handles/Laws.antt =====
-- `vfs_open` (vfs.c) gives out handles only within the mounted trees and the flags.
use umsftpd.Prelude.{
  ℕ, ◌≡◌, ◌≢◌, refl, sym, ap, ◌∙◌, false, not, ◌&&◌, Option, none, some, Bytes, if-cases, done,
  ◌>>=◌, ◌||◌, codes,
}
use umsftpd.Paths.Checks.{LstatResult}
use umsftpd.Vfs.{Vfs, Memory, has_flag, flag_read_only, set_error}
use umsftpd.Vfs.System.{
  Errno, StatResult, stat_failed, stat_done, FopenResult, fopen_failed, fopen_done, FileMode,
  is_read, mode_string, errno_to_error, with_handle, is_enoent, s_isreg,
}
use umsftpd.Vfs.Handles.{HandlePtr, OpenedFile, keep_file, open_file, open_stated, stat_refuses}
use umsftpd.Vfs.Node.{VfsError, HandleType, Handle, Opened}
use umsftpd.Vfs.Node.Mapped.{IsVfs}
use umsftpd.Vfs.Node.Fits.{Fits}
use umsftpd.Vfs.Node.Jail.{open_node_jailed}
use umsftpd.Vfs.Keep.{is_ok-false}

-- The mode of `fopen`: to read, to write from the start, and to write at the end.
abbrev pub Means : FileMode → Bytes → Type 0
Means FileMode.read mode = mode ≡ codes "r"
Means FileMode.write mode = mode ≡ codes "w"
Means FileMode.append mode = mode ≡ codes "a"

-- A handle for writing is not read-only.
abbrev pub MayWrite : FileMode → Handle → Type 0
MayWrite mode h = (has_flag h.flags flag_read_only && not (is_read mode)) ≡ false

-- The file of a handle is the one that `fopen` opens at a path of the host, in a mode.
abbrev pub HasFile :
    (Option Bytes → Bytes → FopenResult) → Option Bytes → FileMode → Handle → Type 0
HasFile fopen mapped mode h =
    (how : Bytes) × Means mode how
    × ((file : ℕ) × (fopen mapped how ≡ fopen_done file)
        × (h.type ≡ HandleType.file_handle (some file)))

-- An error, with at most the error code of the state changed; or a handle of an open file.
abbrev pub OpensFile :
    (Bytes → LstatResult)
    → (Option Bytes → Bytes → FopenResult)
    → Vfs
    → FileMode
    → OpenedFile
    → Type 0
OpensFile lstat fopen vfs mode (vfs', result, HandlePtr.unset) =
    (vfs' ≡ set_error vfs vfs'.error_code) × (result ≢ VfsError.ok)
OpensFile lstat fopen vfs mode (vfs', result, HandlePtr.freed) =
    (vfs' ≡ set_error vfs vfs'.error_code) × (result ≢ VfsError.ok)
OpensFile lstat fopen vfs mode (vfs', result, HandlePtr.live h) =
    Fits lstat vfs (vfs', result, some h) × MayWrite mode h × HasFile fopen h.mapped_path mode h

mode_string-Means : (mode : FileMode) → Means mode (mode_string mode)
mode_string-Means FileMode.read = refl
mode_string-Means FileMode.write = refl
mode_string-Means FileMode.append = refl

errno_not_ok : (e : Errno) → errno_to_error e ≢ VfsError.ok
unfolding errno_to_error
errno_not_ok Errno.eacces = λ q. cc
errno_not_ok Errno.enoent = λ q. cc
errno_not_ok Errno.other = λ q. cc

-- The test of `stat` never refuses with `VFS_OK`.
abbrev IsRefusal : Option VfsError → Type 0
IsRefusal none = Unit
IsRefusal (some e) = e ≢ VfsError.ok

stat_refuses-IsRefusal : (r : StatResult) (mode : FileMode) → IsRefusal (stat_refuses r mode)
unfolding stat_refuses
stat_refuses-IsRefusal (stat_failed e) mode =
    if-cases IsRefusal (not (is_enoent e) || (is_read mode && not (is_enoent e)))
      {x = some (errno_to_error e)} {y = none} (λ _. errno_not_ok e) (λ _. tt)
stat_refuses-IsRefusal (stat_done s) mode =
    if-cases IsRefusal (not (s_isreg s)) {x = some VfsError.not_a_file} {y = none} (λ _ q. cc)
      (λ _. tt)

unchanged : (vfs vfs' : Vfs) → vfs' ≡ vfs → vfs' ≡ set_error vfs vfs'.error_code
unchanged vfs vfs' e = e ∙ ap (λ (v : Vfs). set_error vfs v.error_code) (sym e)

keep_file-OpensFile :
    (lstat : Bytes → LstatResult) (fopen : Option Bytes → Bytes → FopenResult) (vfs vfs' : Vfs)
    (h : Handle) (mode : FileMode) (r : FopenResult)
    → fopen h.mapped_path (mode_string mode) ≡ r
    → Fits lstat vfs (vfs', VfsError.ok, some h)
    → MayWrite mode h
    → OpensFile lstat fopen vfs mode (keep_file vfs' h r)
unfolding keep_file
keep_file-OpensFile lstat fopen vfs vfs' h mode (fopen_failed e) q (ok, same, f) w =
    (unchanged vfs vfs' same, errno_not_ok e)
keep_file-OpensFile lstat fopen vfs vfs' h mode (fopen_done file) q f w =
    (f, w, (mode_string mode, mode_string-Means mode, (file, q, refl)))

open_stated-OpensFile :
    (lstat : Bytes → LstatResult) (fopen : Option Bytes → Bytes → FopenResult) (vfs vfs' : Vfs)
    (h : Handle) (mode : FileMode) (e : Option VfsError)
    → IsRefusal e
    → Fits lstat vfs (vfs', VfsError.ok, some h)
    → OpensFile lstat fopen vfs mode (open_stated fopen vfs' h mode e)
unfolding open_stated
open_stated-OpensFile lstat fopen vfs vfs' h mode (some e) n (ok, same, f) =
    (unchanged vfs vfs' same, n)
open_stated-OpensFile lstat fopen vfs vfs' h mode none n f =
    if-cases (OpensFile lstat fopen vfs mode)
      (has_flag h.flags flag_read_only && not (is_read mode))
      {x = (vfs', VfsError.permission_denied, HandlePtr.freed)}
      {y = keep_file vfs' h (fopen h.mapped_path (mode_string mode))}
      (λ _. (unchanged vfs vfs' f.1, λ q. cc))
      (λ w.
        keep_file-OpensFile lstat fopen vfs vfs' h mode (fopen h.mapped_path (mode_string mode))
          refl f w)

open_behind :
    (lstat : Bytes → LstatResult) (stat : Option Bytes → StatResult)
    (fopen : Option Bytes → Bytes → FopenResult) (vfs : Vfs) (mode : FileMode) (opened : Opened)
    → Fits lstat vfs opened
    → (r : OpenedFile) × (with_handle opened
          (λ vfs' result. (vfs', result, HandlePtr.unset))
          (λ vfs' handle.
            done (open_stated fopen vfs' handle mode (stat_refuses (stat handle.mapped_path) mode)))
        ≡ done r)
      × OpensFile lstat fopen vfs mode r
open_behind lstat stat fopen vfs mode (vfs', result, none) (e, failed) =
    ((vfs', result, HandlePtr.unset), rw (is_ok-false result failed) refl, (e, failed))
open_behind lstat stat fopen vfs mode (vfs', result, some h) (ok, same, f) =
    let refusal = stat_refuses (stat h.mapped_path) mode in
    (
      open_stated fopen vfs' h mode refusal,
      rw ok refl,
      open_stated-OpensFile lstat fopen vfs vfs' h mode refusal
          (stat_refuses-IsRefusal (stat h.mapped_path) mode) (refl, same, f),
    )

-- In a well-formed file system, opening a file always returns. With an error, at most the error code of
-- the state changes, and what is left in `*handle_ptr` is not a handle: it is unset, or the address of
-- a freed handle. Otherwise the result is `VFS_OK` and there is a handle, which satisfies what
-- `vfs_open_node` promises; its file is the one that `fopen` opens at its mapped path, to read, to write
-- or to append as the mode says; and where its flags are read-only the mode is reading.
pub open_file_jailed :
    (mem : Memory) (lstat : Bytes → LstatResult) (stat : Option Bytes → StatResult)
    (fopen : Option Bytes → Bytes → FopenResult) (vfs : Vfs) (path : Option Bytes) (mode : FileMode)
    → IsVfs vfs
    → (r : OpenedFile) × (open_file mem lstat stat fopen vfs path mode ≡ done r)
      × OpensFile lstat fopen vfs mode r
unfolding open_file
open_file_jailed mem lstat stat fopen vfs path mode v =
    let (opened, e, f) = open_node_jailed mem lstat vfs path v in
    let (r, q, g) = open_behind lstat stat fopen vfs mode opened f in
    (
      r,
      ap
            (λ o. o >>= (λ x.
              with_handle x (λ vfs' result. (vfs', result, HandlePtr.unset))
                (λ vfs' handle. done (
                  open_stated fopen vfs' handle mode
                    (stat_refuses (stat handle.mapped_path) mode)))))
            e
          ∙ q,
      g,
    )
