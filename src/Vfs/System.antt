-- ===== src/Vfs/System.antt =====
-- What vfs.c takes from the operating system: the values of `errno`, file types, `stat` and `fopen`. The
-- calls themselves are parameters of the functions that make them.
use umsftpd.Prelude.{
  ℕ, Bool, true, false, not, none, some, Bytes, if◌then◌else◌, Outcome, done, undefined, codes,
}
use umsftpd.Vfs.{Vfs}
use umsftpd.Vfs.Node.{VfsError, Handle, Opened}

-- The values of `errno` that are told apart.
pub data Errno : Type 0 where
  eacces enoent other : Errno

-- The file types of `S_IFMT` that are told apart.
pub data FileType : Type 0 where
  regular directory special : FileType

-- `struct stat`: the type is `st_mode & S_IFMT`.
pub record Stat : Type 0 where
  pub st_type : FileType
  pub st_mode : ℕ
  pub st_uid : ℕ
  pub st_gid : ℕ
  pub st_size : ℕ
  pub st_mtim : ℕ
  pub st_ctim : ℕ
  pub st_atim : ℕ

pub data StatResult : Type 0 where
  stat_failed : Errno → StatResult
  stat_done : Stat → StatResult

pub data FopenResult : Type 0 where
  fopen_failed : Errno → FopenResult
  fopen_done : ℕ → FopenResult

-- `enum vfs_filemode_t`
pub data FileMode : Type 0 where
  read write append : FileMode

abbrev pub is_read : FileMode → Bool
is_read m = elim m [ FileMode.read ↦ true | _ ↦ false ]

abbrev pub is_enoent : Errno → Bool
is_enoent e = elim e [ Errno.enoent ↦ true | _ ↦ false ]

-- `mode_string_mapping`
abbrev pub mode_string : FileMode → Bytes
mode_string m = elim m [
  | FileMode.read ↦ codes "r"
  | FileMode.write ↦ codes "w"
  | FileMode.append ↦ codes "a"
]

-- `S_ISREG` and `S_ISDIR`
abbrev pub s_isreg : Stat → Bool
s_isreg s = elim s.st_type [ FileType.regular ↦ true | _ ↦ false ]

abbrev pub s_isdir : Stat → Bool
s_isdir s = elim s.st_type [ FileType.directory ↦ true | _ ↦ false ]

-- `vfs_errno_to_vfs_error`
unfoldable pub errno_to_error : Errno → VfsError
errno_to_error e = elim e [
  | Errno.eacces ↦ VfsError.permission_denied
  | Errno.enoent ↦ VfsError.no_such_file_or_directory
  | Errno.other ↦ VfsError.internal_error
]

abbrev pub is_ok : VfsError → Bool
is_ok e = elim e [ VfsError.ok ↦ true | _ ↦ false ]

-- The start of the functions that open a node: a result other than `VFS_OK` is returned, and the
-- handle is used otherwise.
abbrev pub with_handle :
    {A : Type 0} → Opened → (Vfs → VfsError → A) → (Vfs → Handle → Outcome A) → Outcome A
with_handle (vfs, result, handle) return use_handle =
    if not (is_ok result)
    then done (return vfs result)
    else elim handle [ none ↦ undefined | some h ↦ use_handle vfs h ]
