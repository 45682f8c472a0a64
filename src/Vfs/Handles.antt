-- ===== src/Vfs/Handles.antt =====
-- vfs.c: changing the directory, and opening, reading and writing what `vfs_open_node` has found. A path
-- or a stream that is NULL is `none`.
pub mod Laws
use umsftpd.Prelude.{
  ℕ, ◌-◌, ◌^◌, ◌%◌, Bool, true, false, not, ◌&&◌, ◌||◌, List, [], ◌∷◌, Option, none, some, Bytes,
  length, take, ◌==◌, bit_and, bit_or, if◌then◌else◌, Outcome, done, undefined, ◌>>=◌, codes,
}
use umsftpd.Paths.Checks.{LstatResult, const_basename}
use umsftpd.Vfs.{Inode, Vfs, Memory, has_flag, flag_read_only, set_cwd}
use umsftpd.Vfs.Node.{VfsError, HandleType, Handle, Opened, open_node}
use umsftpd.Vfs.System.{
  Errno, FileType, Stat, StatResult, stat_failed, stat_done, FopenResult, fopen_failed, fopen_done,
  FileMode, is_read, is_enoent, mode_string, s_isreg, s_isdir, errno_to_error, is_ok, with_handle,
}

-- `vfs_chdir` behind `vfs_open_node`, with the inode of the handle and what `stat` says, which only
-- counts without an inode.
unfoldable pub chdir_to : Memory → Vfs → Bytes → Option Inode → StatResult → Vfs × VfsError
unfolding errno_to_error
chdir_to mem vfs virtual_path (some inode) result =
    let moved = set_cwd mem vfs virtual_path in
    (moved.0, if moved.1 then VfsError.ok else VfsError.internal_error)
chdir_to mem vfs virtual_path none (stat_failed e) = (vfs, errno_to_error e)
chdir_to mem vfs virtual_path none (stat_done s) =
    if not (s_isdir s)
    then (vfs, VfsError.not_a_directory)
    else let moved = set_cwd mem vfs virtual_path in
      (moved.0, if not moved.1 then VfsError.internal_error else VfsError.ok)

-- `vfs_chdir`
unfoldable pub chdir :
    Memory
    → (Bytes → LstatResult)
    → (Option Bytes → StatResult)
    → Vfs
    → Option Bytes
    → Outcome (Vfs × VfsError)
unfolding chdir_to
chdir mem lstat stat vfs path = do
  opened ← open_node mem lstat vfs path
  with_handle opened (λ vfs' result. (vfs', result))
      (λ vfs' handle.
        done (chdir_to mem vfs' handle.virtual_path handle.inode (stat handle.mapped_path)))

-- `vfs_opendir`. A directory that cannot be opened leaves a handle without a stream.
unfoldable pub opendir :
    Memory → (Bytes → LstatResult) → (Option Bytes → Option ℕ) → Vfs → Option Bytes → Outcome Opened
opendir mem lstat os_opendir vfs path = do
  opened ← open_node mem lstat vfs path
  with_handle opened (λ vfs' result. (vfs', result, none))
      (λ vfs' handle. done (
        vfs',
        VfsError.ok,
        some (record handle { type = HandleType.dir_handle (os_opendir handle.mapped_path) 0 }),
      ))

-- The test of `vfs_open` that `stat` allows to go on, or the error.
unfoldable pub stat_refuses : StatResult → FileMode → Option VfsError
unfolding errno_to_error
stat_refuses result mode = elim result [
  | stat_failed e ↦
      (if not (is_enoent e) || (is_read mode && not (is_enoent e))
        then some (errno_to_error e)
        else none)
  | stat_done s ↦ (if not (s_isreg s) then some VfsError.not_a_file else none)
]

-- `*handle_ptr` behind `vfs_open`: as it was before, the address of a handle that is freed, or a handle.
pub data HandlePtr : Type 0 where
  unset freed : HandlePtr
  live : Handle → HandlePtr

abbrev pub OpenedFile : Type 0
OpenedFile = Vfs × VfsError × HandlePtr

-- The end of `vfs_open`, with the result of `fopen`; `vfs_close_handle` frees the handle.
unfoldable pub keep_file : Vfs → Handle → FopenResult → OpenedFile
unfolding errno_to_error
keep_file vfs handle (fopen_failed e) = (vfs, errno_to_error e, HandlePtr.freed)
keep_file vfs handle (fopen_done f) =
    (vfs, VfsError.ok, HandlePtr.live (record handle { type = HandleType.file_handle (some f) }))

-- `vfs_open` behind the test of `stat`. Where it closes the handle, it leaves its address in
-- `*handle_ptr`.
unfoldable pub open_stated :
    (Option Bytes → Bytes → FopenResult) → Vfs → Handle → FileMode → Option VfsError → OpenedFile
unfolding keep_file
open_stated fopen vfs handle mode (some error_code) = (vfs, error_code, HandlePtr.freed)
open_stated fopen vfs handle mode none =
    if has_flag handle.flags flag_read_only && not (is_read mode)
    then (vfs, VfsError.permission_denied, HandlePtr.freed)
    else keep_file vfs handle (fopen handle.mapped_path (mode_string mode))

-- `vfs_open`
unfoldable pub open_file :
    Memory
    → (Bytes → LstatResult)
    → (Option Bytes → StatResult)
    → (Option Bytes → Bytes → FopenResult)
    → Vfs
    → Option Bytes
    → FileMode
    → Outcome OpenedFile
unfolding stat_refuses open_stated
open_file mem lstat stat fopen vfs path mode = do
  opened ← open_node mem lstat vfs path
  with_handle opened (λ vfs' result. (vfs', result, HandlePtr.unset))
      (λ vfs' handle.
        done (open_stated fopen vfs' handle mode (stat_refuses (stat handle.mapped_path) mode)))

-- The handle that a caller of `vfs_open` can use.
abbrev pub usable_handle : HandlePtr → Option Handle
usable_handle HandlePtr.unset = none
usable_handle HandlePtr.freed = none
usable_handle (HandlePtr.live h) = some h

abbrev pub usable : OpenedFile → Opened
usable (vfs, result, ptr) = (vfs, result, usable_handle ptr)

-- What `fread` and `fwrite` report: the number of bytes, and whether `errno` is set.
pub record Transfer : Type 0 where
  pub transferred : ℕ
  pub errno_set : Bool

-- `vfs_read` and `vfs_write`, which differ in the call they make: the result and `*length`.
unfoldable pub transfer : (ℕ → ℕ → Transfer) → Handle → ℕ → Outcome (VfsError × ℕ)
transfer call handle len = elim handle.type [
  | HandleType.dir_handle d i ↦ done (VfsError.internal_error, len)
  | HandleType.file_handle f ↦ elim f [
    | none ↦ undefined
    | some file ↦
        let t = call file len in
        done (if not t.errno_set then VfsError.ok else VfsError.io_error, t.transferred)
  ]
]
