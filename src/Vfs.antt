-- ===== src/Vfs.antt =====
-- vfs.h and vfs.c: the state of the virtual file system, its inodes and its working directory.
pub mod Cwd
mod Tests
pub mod Fixture
pub mod Table
pub mod Insert
pub mod Lookup
pub mod Node
pub mod System
pub mod Handles
pub mod Stat
pub mod Readdir
pub mod Keep
pub mod Unique
pub mod Freeze
pub mod Release
pub mod Sorter
pub mod Reach
use umsftpd.Prelude.{
  ℕ, ◌+◌, ◌-◌, ◌^◌, Bool, true, false, not, List, [], ◌∷◌, ◌++◌, Option, none, some, Bytes, length,
  ltb, ◌==◌, bit_and, bit_or, if◌then◌else◌, Outcome, done, undefined, ◌>>=◌, codes,
}
use umsftpd.Paths.{is_absolute_path, truncate_trailing_slash, pathcmp, path_split}
use umsftpd.Paths.Checks.{const_basename}
use umsftpd.StringList
use umsftpd.StringList.{StringList}

-- The `VFS_INODE_FLAG_` constants.
abbrev pub flag_read_only : ℕ
flag_read_only = 1

abbrev pub flag_filter_all : ℕ
flag_filter_all = 2

abbrev pub flag_filter_hidden : ℕ
flag_filter_hidden = 4

abbrev pub flag_allow_symlinks : ℕ
flag_allow_symlinks = 64

-- `flags & flag` as a condition.
abbrev pub has_flag : ℕ → ℕ → Bool
has_flag flags flag = not (bit_and flags flag == 0)

-- `enum vfs_internal_error_t`
pub data InternalError : Type 0 where
  add_inode_parameter_error add_inode_already_exists add_inode_out_of_memory : InternalError
  map_empty_path cwd_out_of_memory inode_finalization_error cwd_illegal : InternalError
  lookup_non_absolute illegal_path sanitize_path_error inode_lookup_error : InternalError
  path_map_error missing_argument not_mounted path_not_absolute : InternalError
  out_of_memory opendir_failed : InternalError

-- `struct vfs_inode_t`. A pointer to an inode is the inode's `id`; a NULL list is `none`.
pub record Inode : Type 0 where
  pub id : ℕ
  pub parent : Option ℕ
  pub flags_set : ℕ
  pub flags_reset : ℕ
  pub virtual_path : Bytes
  pub target_path : Option Bytes
  pub vlen : ℕ
  pub tlen : ℕ
  pub virtual_subdirs : Option StringList

-- `strlen` of a target path, 0 for NULL.
abbrev pub target_length : Option Bytes → ℕ
target_length none = 0
target_length (some t) = length t

-- `struct vfs_t`; `inode.count` is the length of `inodes`, and of `error` only the code is kept.
pub record Vfs : Type 0 where
  pub error_code : InternalError
  pub current_count : ℕ
  pub max_count : ℕ
  pub base_flags : ℕ
  pub inodes : List Inode
  pub frozen : Bool
  pub cwd_alloced_size : ℕ
  pub cwd_length : ℕ
  pub cwd_path : Bytes

-- `vfs_set_error`
abbrev pub set_error : Vfs → InternalError → Vfs
set_error vfs code = record vfs { error_code = code }

-- Where memory is allocated; which requests succeed is a parameter, by place and path.
pub data Site : Type 0 where
  vpath_copy tpath_copy new_inode subdir_copy subdir_array subdirs inode_array : Site
  cwd_buffer handle_memory sanitize_buffer map_buffer vfs_memory : Site

abbrev pub Memory : Type 0
Memory = Site → Bytes → Bool

-- The loop of `vfs_find_inode`.
unfoldable pub find_in : List Inode → Bytes → Option Inode
find_in [] path = none
find_in (inode ∷ rest) path =
    if pathcmp inode.virtual_path path then some inode else find_in rest path

unfoldable pub find_inode : Vfs → Bytes → Option Inode
unfolding find_in
find_inode vfs path = find_in vfs.inodes path

-- `vfs_set_cwd`
unfoldable pub set_cwd : Memory → Vfs → Bytes → Vfs × Bool
set_cwd mem vfs new_cwd =
    if not (is_absolute_path new_cwd)
    then (set_error vfs InternalError.cwd_illegal, false)
    else let len = length new_cwd in
      let path = truncate_trailing_slash new_cwd in
      if ltb vfs.cwd_alloced_size (len + 1)
      then (if mem Site.cwd_buffer new_cwd
          then (record vfs { cwd_path = path; cwd_length = len; cwd_alloced_size = len + 1 }, true)
          else (set_error vfs InternalError.cwd_out_of_memory, false))
      else (record vfs { cwd_path = path }, true)

-- What `calloc` leaves: every field 0, and the error code is the first of the enumeration.
abbrev pub zeroed : Vfs
zeroed = record {
  error_code = InternalError.add_inode_parameter_error;
  current_count = 0;
  max_count = 0;
  base_flags = 0;
  inodes = [];
  frozen = false;
  cwd_alloced_size = 0;
  cwd_length = 0;
  cwd_path = [];
}

-- `vfs_init`
unfoldable pub init : Memory → Option Vfs
unfolding set_cwd
init mem =
    if not (mem Site.vfs_memory [])
    then none
    else let (vfs, success) = set_cwd mem zeroed (codes "/") in
      if not success then none else some (record vfs { max_count = 10 })
