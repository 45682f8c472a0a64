-- ===== src/Vfs/Readdir.antt =====
-- vfs.c: `vfs_readdir`. What the stream of the operating system still has to give is
-- a list, which ends where `readdir` returns NULL without an error. A name that the loop has written for
-- an entry that it then leaves out is not kept in the entry of the caller. `vfs_close_handle` only
-- releases, and is not modelled.
pub mod Listing
pub mod Whole
use umsftpd.Prelude.{
  ℕ, ◌+◌, Bool, true, false, not, ◌||◌, List, [], ◌∷◌, Option, none, some, Bytes, length, get_or,
  ltb, if◌then◌else◌, Outcome, done, undefined, codes, str_eq,
}
use umsftpd.StringList.{StringList, contains}
use umsftpd.Vfs.{Inode}
use umsftpd.Vfs.System.{FileType, Stat, StatResult, stat_failed, stat_done}
use umsftpd.Vfs.Node.{VfsError, HandleType, Handle}
use umsftpd.Vfs.Stat.{Dirent, short_name, stat_virtual_directory, stat_statbuf}

-- The values of `d_type` that are told apart.
pub data DirentType : Type 0 where
  dt_reg dt_dir dt_lnk dt_other : DirentType

-- What one call of `readdir` returns.
pub data DirItem : Type 0 where
  failed : DirItem
  entry : Bytes → DirentType → DirItem

-- How the loop of `vfs_readdir` ends.
pub data Found : Type 0 where
  read_error read_end : Found
  read_entry : Dirent → Found

abbrev pub is_supported : DirentType → Bool
is_supported t = elim t [ DirentType.dt_other ↦ false | _ ↦ true ]

abbrev pub is_special : Stat → Bool
is_special s = elim s.st_type [ FileType.special ↦ true | _ ↦ false ]

-- `handle->inode && stringlist_contains(...)`, with the list that the search leaves sorted.
unfoldable pub overlaid : Option StringList → Bytes → Option StringList × Bool
overlaid none name = (none, false)
overlaid (some list) name = let (list', found) = contains list name in (some list', found)

-- The rest of the body of the loop for an entry that nothing hides; `none` is `continue`.
unfoldable pub stat_entry : (Bytes → StatResult) → ℕ → Bytes → Option Dirent
stat_entry fstatat flags name = elim (fstatat (short_name name)) [
  | stat_failed e ↦ none
  | stat_done s ↦ (if is_special s then none else some (stat_statbuf s (short_name name) flags))
]

-- The body of the loop.
unfoldable pub examine :
    (Bytes → StatResult)
    → ℕ
    → Bytes
    → DirentType
    → Option StringList
    → Option StringList × Option Dirent
unfolding overlaid stat_entry
examine fstatat flags name type overlay =
    if str_eq name (codes ".") || str_eq name (codes "..")
    then (overlay, none)
    else if not (is_supported type)
    then (overlay, none)
    else let (overlay', covered) = overlaid overlay name in
      (overlay', if covered then none else stat_entry fstatat flags name)

-- The end of a turn of the loop: the entry is returned, or the loop goes on.
abbrev pub go_on :
    List DirItem
    → (Option StringList → List DirItem × Option StringList × Found)
    → Option StringList × Option Dirent
    → List DirItem × Option StringList × Found
go_on items continue (overlay, none) = continue overlay
go_on items continue (overlay, some d) = (items, overlay, Found.read_entry d)

-- The loop, which leaves the rest of the stream and the list of the inode.
unfoldable pub read_stream :
    (Bytes → StatResult)
    → ℕ
    → List DirItem
    → Option StringList
    → List DirItem × Option StringList × Found
read_stream fstatat flags [] overlay = ([], overlay, Found.read_end)
read_stream fstatat flags (failed ∷ items) overlay = (items, overlay, Found.read_error)
read_stream fstatat flags (entry name type ∷ items) overlay =
    go_on items (λ overlay'. read_stream fstatat flags items overlay')
      (examine fstatat flags name type overlay)

abbrev pub with_list : Option Inode → Option StringList → Option Inode
with_list none list = none
with_list (some inode) list = some (record inode { virtual_subdirs = list })

-- What `vfs_readdir` returns when its loop has ended.
unfoldable pub finish :
    Handle
    → Dirent
    → List DirItem × Option StringList × Found
    → Handle × List DirItem × VfsError × Dirent
finish handle dirent (items, overlay, Found.read_error) = (
  record handle { inode = with_list handle.inode overlay },
  items,
  VfsError.internal_error,
  dirent,
)
finish handle dirent (items, overlay, Found.read_end) = (
  record handle { inode = with_list handle.inode overlay },
  items,
  VfsError.ok,
  record dirent { eof = true },
)
finish handle dirent (items, overlay, Found.read_entry d) =
    (record handle { inode = with_list handle.inode overlay }, items, VfsError.ok, d)

-- The end of `vfs_readdir`: the stream of the operating system, if it is open.
unfoldable pub readdir_stream :
    (Bytes → StatResult)
    → Handle
    → Option ℕ
    → List DirItem
    → Option StringList
    → Dirent
    → Handle × List DirItem × VfsError × Dirent
unfolding finish
readdir_stream fstatat handle none items overlay dirent =
    (handle, items, VfsError.ok, record dirent { eof = true })
readdir_stream fstatat handle (some dir) items overlay dirent =
    finish handle dirent (read_stream fstatat handle.flags items overlay)

-- `vfs_readdir` for a directory with its stream and index.
unfoldable pub readdir_dir :
    (Bytes → StatResult)
    → Handle
    → Option ℕ
    → ℕ
    → List DirItem
    → Dirent
    → Outcome (Handle × List DirItem × VfsError × Dirent)
unfolding readdir_stream
readdir_dir fstatat handle dir index items dirent = elim handle.inode [
  | none ↦ elim dir [
    | none ↦ done (handle, items, VfsError.internal_error, dirent)
    | some d ↦ done (readdir_stream fstatat handle (some d) items none dirent)
  ]
  | some inode ↦ elim inode.virtual_subdirs [
    | none ↦ undefined
    | some list ↦
        (if ltb index (length list.strings)
          then done (
            record handle { type = HandleType.dir_handle dir (index + 1) },
            items,
            VfsError.ok,
            stat_virtual_directory (get_or list.strings index []) handle.flags,
          )
          else done (readdir_stream fstatat handle dir items (some list) dirent))
  ]
]

-- `vfs_readdir`
unfoldable pub readdir :
    (Bytes → StatResult)
    → Handle
    → List DirItem
    → Dirent
    → Outcome (Handle × List DirItem × VfsError × Dirent)
unfolding readdir_dir
readdir fstatat handle items dirent = elim handle.type [
  | HandleType.file_handle f ↦ done (handle, items, VfsError.internal_error, dirent)
  | HandleType.dir_handle dir index ↦ readdir_dir fstatat handle dir index items dirent
]
