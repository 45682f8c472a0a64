-- ===== src/Vfs/Stat.antt =====
-- vfs.c: `vfs_stat`, and the directory entries it makes.
use umsftpd.Prelude.{
  ℕ, ◌-◌, ◌^◌, ◌%◌, Bool, false, Option, none, some, Bytes, take, bit_and, if◌then◌else◌, Outcome,
  done, ◌>>=◌,
}
use umsftpd.Paths.Checks.{LstatResult, const_basename}
use umsftpd.Vfs.{Vfs, Memory, has_flag, flag_read_only}
use umsftpd.Vfs.Node.{VfsError, open_node}
use umsftpd.Vfs.System.{
  Stat, StatResult, stat_failed, stat_done, s_isreg, errno_to_error, with_handle,
}

-- `struct vfs_dirent_t`
pub record Dirent : Type 0 where
  pub filename : Bytes
  pub eof : Bool
  pub is_file : Bool
  pub uid : ℕ
  pub gid : ℕ
  pub filesize : ℕ
  pub permissions : ℕ
  pub mtime : ℕ
  pub ctime : ℕ
  pub atime : ℕ

abbrev pub max_filename_length : ℕ
max_filename_length = 256

-- `strncpy` of a name into the field `filename`, with the terminating zero set behind it.
abbrev pub short_name : Bytes → Bytes
short_name name = take (max_filename_length - 1) name

-- `vfs_stat_virtual_directory`: 0555 or 0755.
unfoldable pub stat_virtual_directory : Bytes → ℕ → Dirent
stat_virtual_directory virtual_dirname flags = record {
  filename = short_name virtual_dirname;
  eof = false;
  is_file = false;
  uid = 0;
  gid = 0;
  filesize = 0;
  permissions = if has_flag flags flag_read_only then 365 else 493;
  mtime = 0;
  ctime = 0;
  atime = 0;
}

-- `vfs_stat_statbuf`: of the mode the bits 0777, and without the bits 0222 for a read-only handle. The
-- name stays.
unfoldable pub stat_statbuf : Stat → Bytes → ℕ → Dirent
stat_statbuf s filename flags =
    let permissions = bit_and s.st_mode 511 in
    record {
      filename = filename;
      eof = false;
      is_file = s_isreg s;
      uid = s.st_uid % 2 ^ 16;
      gid = s.st_gid % 2 ^ 16;
      filesize = s.st_size;
      permissions =
          if has_flag flags flag_read_only
          then bit_and permissions (2 ^ 16 - 1 - 146)
          else permissions;
      mtime = s.st_mtim;
      ctime = s.st_ctim;
      atime = s.st_atim;
    }

-- `vfs_stat`; the entry is given when the result is `VFS_OK`.
unfoldable pub stat :
    Memory
    → (Bytes → LstatResult)
    → (Option Bytes → StatResult)
    → Vfs
    → Option Bytes
    → Outcome (Vfs × VfsError × Option Dirent)
unfolding errno_to_error stat_virtual_directory stat_statbuf
stat mem lstat os_stat vfs path = do
  opened ← open_node mem lstat vfs path
  with_handle opened (λ vfs' result. (vfs', result, none))
      (λ vfs' handle. (do
        name ← const_basename handle.virtual_path
        done (elim handle.inode [
          | some inode ↦ (vfs', VfsError.ok, some (stat_virtual_directory name handle.flags))
          | none ↦ elim (os_stat handle.mapped_path) [
            | stat_failed e ↦ (vfs', errno_to_error e, none)
            | stat_done s ↦
                (vfs', VfsError.ok, some (stat_statbuf s (short_name name) handle.flags))
          ]
        ])))
