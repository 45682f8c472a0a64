-- ===== src/Vfs/Node.antt =====
-- vfs.c: `vfs_map_path`, `vfs_open_node` and what they need of the operating system.
pub mod Mapped
pub mod Fits
pub mod Jail
use umsftpd.Prelude.{
  ℕ, ◌+◌, Bool, true, false, not, ◌&&◌, List, [], ◌∷◌, ◌++◌, Option, none, some, Bytes, length,
  take, drop, ltb, leb, if◌then◌else◌, Outcome, done, undefined, ◌>>=◌,
}
use umsftpd.Paths.{slash, is_absolute_path, sanitize_path}
use umsftpd.Paths.Checks.{LstatResult, path_contains_hidden, path_contains_symlink}
use umsftpd.Vfs.{
  Inode, Vfs, Memory, Site, InternalError, set_error, has_flag, flag_filter_all, flag_filter_hidden,
  flag_allow_symlinks,
}
use umsftpd.Vfs.Lookup.{LookupResult, lookup}

-- `enum vfs_error_t`
pub data VfsError : Type 0 where
  ok out_of_handles permission_denied no_such_file_or_directory not_a_directory : VfsError
  not_a_file internal_error io_error : VfsError

-- `enum vfs_handle_type_t` with the member of the union that belongs to it; a stream that is not open
-- is `none`. What `calloc` leaves is a file handle whose file is not open.
pub data HandleType : Type 0 where
  file_handle : Option ℕ → HandleType
  dir_handle : Option ℕ → ℕ → HandleType

-- `struct vfs_handle_t`
pub record Handle : Type 0 where
  pub type : HandleType
  pub virtual_path : Bytes
  pub mapped_path : Option Bytes
  pub inode : Option Inode
  pub flags : ℕ

-- What a function that opens a node leaves: the state, its result, and `*handle_ptr`.
abbrev pub Opened : Type 0
Opened = Vfs × VfsError × Option Handle

-- The part of `vfs_map_path` behind the checks of its arguments.
unfoldable pub map_below : Memory → Vfs → Inode → Bytes → Outcome (Vfs × Option Bytes)
map_below mem vfs mountpoint virtual_path =
    if ltb (length virtual_path) mountpoint.vlen
    then done (set_error vfs InternalError.illegal_path, none)
    else if not (mem Site.map_buffer virtual_path)
    then done (set_error vfs InternalError.out_of_memory, none)
    else elim mountpoint.target_path [
      | none ↦ undefined
      | some target ↦
          (if ltb mountpoint.vlen (length virtual_path)
            then done (
              vfs,
              some (take mountpoint.tlen target ++ slash ∷ drop (mountpoint.vlen + 1) virtual_path),
            )
            else done (vfs, some target))
    ]

-- `vfs_map_path`; `none` for an argument is NULL.
unfoldable pub map_path :
    Memory → Vfs → Option LookupResult → Option Bytes → Outcome (Vfs × Option Bytes)
unfolding map_below
map_path mem vfs none virtual_path = done (set_error vfs InternalError.missing_argument, none)
map_path mem vfs (some l) none = done (set_error vfs InternalError.missing_argument, none)
map_path mem vfs (some l) (some virtual_path) =
    if not (is_absolute_path virtual_path)
    then done (set_error vfs InternalError.path_not_absolute, none)
    else elim l.mountpoint [
      | none ↦ done (set_error vfs InternalError.not_mounted, none)
      | some mountpoint ↦ map_below mem vfs mountpoint virtual_path
    ]

abbrev pub make_handle : LookupResult → Bytes → Option Bytes → Handle
make_handle l virtual_path mapped_path = record {
  type = HandleType.file_handle none;
  virtual_path = virtual_path;
  mapped_path = mapped_path;
  inode = l.inode;
  flags = l.flags;
}

-- The end of `vfs_open_node`: the check for symbolic links. The file system is `lstat`.
unfoldable pub open_mapped :
    (Bytes → LstatResult) → Vfs → LookupResult → Bytes → Option Bytes → Opened
open_mapped lstat vfs l virtual_path none =
    (set_error vfs InternalError.path_map_error, VfsError.internal_error, none)
open_mapped lstat vfs l virtual_path (some mapped_path) =
    let symlink = path_contains_symlink lstat mapped_path in
    let opened : Opened =
      (vfs, VfsError.ok, some (make_handle l virtual_path (some mapped_path))) in
    if not (has_flag l.flags flag_allow_symlinks)
    then (if symlink.critical_error
        then (vfs, VfsError.internal_error, none)
        else if symlink.contains_symlink
        then (vfs, VfsError.no_such_file_or_directory, none)
        else opened)
    else opened

abbrev pub is_null : Option Inode → Bool
is_null none = true
is_null (some n) = false

-- `vfs_open_node` behind the lookup.
unfoldable pub open_found :
    Memory → (Bytes → LstatResult) → Vfs → Bytes → Option LookupResult → Outcome Opened
unfolding open_mapped
open_found mem lstat vfs virtual_path none =
    done (set_error vfs InternalError.inode_lookup_error, VfsError.internal_error, none)
open_found mem lstat vfs virtual_path (some l) =
    if has_flag l.flags flag_filter_all
    then done (vfs, VfsError.no_such_file_or_directory, none)
    else if has_flag l.flags flag_filter_hidden && path_contains_hidden virtual_path
    then done (vfs, VfsError.permission_denied, none)
    else if is_null l.inode && is_null l.mountpoint
    then done (vfs, VfsError.no_such_file_or_directory, none)
    else if is_null l.mountpoint
    then done (vfs, VfsError.ok, some (make_handle l virtual_path none))
    else (do
      (vfs', mapped) ← map_path mem vfs (some l) (some virtual_path)
      done (open_mapped lstat vfs' l virtual_path mapped))

-- `vfs_open_node` behind `sanitize_path`.
unfoldable pub open_sanitized : Memory → (Bytes → LstatResult) → Vfs → Option Bytes → Outcome Opened
unfolding open_found
open_sanitized mem lstat vfs none =
    done (set_error vfs InternalError.sanitize_path_error, VfsError.internal_error, none)
open_sanitized mem lstat vfs (some virtual_path) =
    let (vfs', l) = lookup vfs virtual_path in open_found mem lstat vfs' virtual_path l

-- `vfs_open_node`
unfoldable pub open_node : Memory → (Bytes → LstatResult) → Vfs → Option Bytes → Outcome Opened
unfolding open_sanitized
open_node mem lstat vfs none =
    done (set_error vfs InternalError.illegal_path, VfsError.internal_error, none)
open_node mem lstat vfs (some path) =
    if leb vfs.max_count vfs.current_count
    then done (vfs, VfsError.out_of_handles, none)
    else if not (mem Site.handle_memory path)
    then done (set_error vfs InternalError.out_of_memory, VfsError.internal_error, none)
    else (do
      sanitized ← sanitize_path (mem Site.sanitize_buffer path) vfs.cwd_path path
      open_sanitized mem lstat vfs sanitized)
