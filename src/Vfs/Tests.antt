-- ===== src/Vfs/Tests.antt =====
-- vfs.c and its theorems on a concrete file system.
use mathlib.Core.List.{map}
use umsftpd.Vfs.Stat.{Dirent, stat_virtual_directory}
use umsftpd.Vfs.Readdir.Whole.{list_all, dir_of, readdir_whole}
use umsftpd.Prelude.{
  suc, ◌+◌, ◌++◌, length, ◌≡◌, refl, true, false, List, [], ◌∷◌, ◌++◌, none, some, Bytes, All, Bool,
  codes, Outcome, done, undefined,
}
use umsftpd.Paths.{
  sanitize_path, is_absolute_path, truncate_trailing_slash, truncated, pathcmp, path_split,
}
use umsftpd.Paths.Checks.{const_basename}
use umsftpd.Paths.Names.{IsName, render, show}
use umsftpd.Paths.Split.{prefixes}
use umsftpd.Vfs.Readdir.{DirentType, DirItem, entry}
use umsftpd.Vfs.Readdir.Listing.{visible}
use umsftpd.StringList.{empty, new}
use umsftpd.Vfs.{Inode, Vfs, zeroed, init, find_inode, find_in, set_cwd}
use umsftpd.Vfs.Table.{entries, or_else}
use umsftpd.Vfs.Insert.{add_inode, add_inode_splitter, add_single_inode, link_parent, insert_subdir}
use umsftpd.Vfs.Insert.Step.{IsTable, SameEntries, new_entry}
use umsftpd.Vfs.Insert.Grown.{grown}
use umsftpd.Vfs.Insert.Refine.{add_inode_refines}
use umsftpd.Vfs.Lookup.{lookup, freeze_inodes}
use umsftpd.Vfs.Lookup.Deepest.{lookup-show, deepest, flags_along}
use umsftpd.Vfs.Cwd.{set_cwd-show, Moved}
use umsftpd.Vfs.System.{StatResult, stat_failed, Errno, FileMode}
use umsftpd.Vfs.Handles.{OpenedFile, open_file}
use umsftpd.Vfs.Handles.Laws.{open_file_jailed, OpensFile}
use umsftpd.Vfs.Node.{open_node}
use umsftpd.Vfs.Node.Mapped.{IsVfs, CleanOrNull, sanitize_path_clean}
use umsftpd.Vfs.Node.Fits.{Settles}
use umsftpd.Vfs.Node.Jail.{open_node_jailed}
use umsftpd.Vfs.Release.{Block, Field, free as vfs_free}
use umsftpd.Vfs.Release.Once.{ReleasesOnce, free-ReleasesOnce}
use umsftpd.Vfs.Reach.{Reachable, start, added, frozen, Reachable-IsVfs, open_node-Reachable}
use umsftpd.Vfs.Unique.{paths, IsDistinct}
use umsftpd.Vfs.Reach.Distinct.{Reachable-IsDistinct}
use umsftpd.Vfs.Freeze.{Rises, freeze_inodes_lem}
use umsftpd.Vfs.Sorter.{sort_inodes, sort_inodes-SortsUp}
use umsftpd.Vfs.Fixture.{
  b_list, hides_b, a_handle, granted, present, missing, opens, same_order, granted-Granted,
  same_order-Sorts, ab_names, ab-IsName, a_node, mounted, mounted-IsVfs,
}

open_node_jailed_example :
    Settles present mounted (open_node granted present mounted (some (codes "a/./b")))
open_node_jailed_example =
    open_node_jailed granted present mounted (some (codes "a/./b")) mounted-IsVfs

open_file_jailed_example :
    (r : OpenedFile) × (open_file granted present missing opens mounted
        (some (codes "/a/b"))
        FileMode.write
      ≡ done r)
    × OpensFile present opens mounted FileMode.write r
open_file_jailed_example =
    open_file_jailed granted present missing opens mounted (some (codes "/a/b")) FileMode.write
      mounted-IsVfs

lookup-show_example : lookup mounted (show ab_names) ≡ (
  mounted,
  some (record {
    flags = flags_along mounted (prefixes ab_names) 0;
    inode = find_inode mounted (show ab_names);
    mountpoint = deepest mounted (prefixes ab_names);
  }),
)
lookup-show_example = lookup-show mounted ab_names refl ab-IsName

set_cwd-show_example : Moved mounted ab_names (set_cwd granted mounted (show ab_names))
set_cwd-show_example = set_cwd-show granted mounted ab_names ab-IsName

sanitize_path_clean_example :
    CleanOrNull true (sanitize_path true (render ab_names) (codes "../.."))
sanitize_path_clean_example = sanitize_path_clean true ab_names (codes "../..")

abbrev initial : Vfs
initial = record zeroed { cwd_alloced_size = 2; cwd_length = 1; max_count = 10 }

init-initial : init granted ≡ some initial
unfolding init is_absolute_path truncate_trailing_slash truncated
init-initial = refl

free : entries mounted.inodes ab_names ≡ none
unfolding find_in pathcmp
free = refl

add_inode_refines_example :
    (ns : List Inode) × (add_inode granted mounted (show ab_names) none 1 0
      ≡ done (record mounted { inodes = ns }, true))
    × IsTable ns
    × ((es : List Bytes)
        → All IsName es
        → entries ns es
          ≡ or_else (entries mounted.inodes es) (grown ab_names (new_entry none 1 0) es))
add_inode_refines_example =
    add_inode_refines granted mounted ab_names none 1 0 granted-Granted mounted-IsVfs.table
      ab-IsName refl free

-- The inode that `vfs_add_inode` makes for the root.
abbrev root_node : Inode
root_node = record {
  id = 0;
  parent = none;
  flags_set = 0;
  flags_reset = 0;
  virtual_path = [];
  target_path = some (codes "/t");
  vlen = 0;
  tlen = 2;
  virtual_subdirs = some empty;
}

abbrev rooted : Vfs
rooted = record initial { inodes = root_node ∷ [] }

add-rooted : add_inode granted initial (show []) (some (codes "/t")) 0 0 ≡ done (rooted, true)
unfolding add_inode find_inode find_in pathcmp path_split is_absolute_path truncate_trailing_slash
    truncated add_inode_splitter add_single_inode link_parent new
add-rooted = refl

abbrev ready : Vfs
ready = freeze_inodes same_order rooted

ready-Reachable : Reachable granted same_order ready
ready-Reachable = frozen rooted (
    added initial rooted [] (some (codes "/t")) 0 0 true tt (start initial init-initial) add-rooted)

Reachable-IsVfs_example : IsVfs ready
Reachable-IsVfs_example =
    Reachable-IsVfs granted same_order ready granted-Granted same_order-Sorts ready-Reachable

Reachable-IsDistinct_example : IsDistinct (paths ready.inodes)
Reachable-IsDistinct_example =
    Reachable-IsDistinct granted same_order ready granted-Granted same_order-Sorts ready-Reachable

free-ReleasesOnce_example : ReleasesOnce ready (vfs_free (some ready))
free-ReleasesOnce_example =
    free-ReleasesOnce granted same_order ready granted-Granted same_order-Sorts ready-Reachable

freeze_inodes_lem_example :
    ((freeze_inodes sort_inodes mounted).frozen ≡ true)
    × SameEntries (freeze_inodes sort_inodes mounted).inodes mounted.inodes
    × Rises (freeze_inodes sort_inodes mounted).inodes
freeze_inodes_lem_example =
    freeze_inodes_lem sort_inodes mounted sort_inodes-SortsUp mounted-IsVfs.table (tt, tt)

open_node-Reachable_example :
    Settles present ready (open_node granted present ready (some (codes "x/../y")))
open_node-Reachable_example =
    open_node-Reachable granted same_order ready granted present (some (codes "x/../y"))
      granted-Granted same_order-Sorts ready-Reachable

abbrev unreadable : Bytes → StatResult
unreadable name = stat_failed Errno.eacces

abbrev stream : List DirItem
stream = entry (codes ".") DirentType.dt_dir ∷ entry (codes "b") DirentType.dt_dir ∷ []

abbrev blank_entry : Dirent
blank_entry = record {
  filename = [];
  eof = false;
  is_file = false;
  uid = 0;
  gid = 0;
  filesize = 0;
  permissions = 0;
  mtime = 0;
  ctime = 0;
  atime = 0;
}

readdir_whole_example :
    list_all unreadable
      (1 + suc (length (visible unreadable 0 hides_b stream)))
      (dir_of a_handle a_node b_list 3 0)
      stream
      blank_entry
    ≡ done (
        map (λ name. stat_virtual_directory name 0) (codes "b" ∷ [])
        ++ visible unreadable 0 hides_b stream)
readdir_whole_example =
    readdir_whole unreadable a_handle a_node 3 hides_b b_list stream blank_entry
      ((λ e. cc), (λ name. refl))

free_runs :
    vfs_free (some mounted)
    ≡ done (
        Block.of_inode (codes "/a") Field.virtual_path
        ∷ Block.of_inode (codes "/a") Field.target_path
        ∷ Block.of_inode (codes "/a") Field.list_struct
        ∷ Block.of_inode (codes "/a") Field.inode_struct
        ∷ Block.inode_array
        ∷ Block.vfs_struct
        ∷ [])
unfolding vfs_free
free_runs = refl

abbrev paths_added : Outcome (Vfs × Bool) → List Bytes
paths_added (done (vfs, success)) = paths vfs.inodes
paths_added undefined = []

-- A path with several slashes at its end.
slashes_test :
    paths_added (add_inode granted initial (codes "/a///") none 0 0)
    ≡ [] ∷ codes "/a" ∷ codes "/a" ∷ []
unfolding add_inode find_inode find_in pathcmp path_split is_absolute_path truncate_trailing_slash
    truncated add_inode_splitter add_single_inode link_parent insert_subdir const_basename new
slashes_test = refl
