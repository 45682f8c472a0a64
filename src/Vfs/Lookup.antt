-- ===== src/Vfs/Lookup.antt =====
-- vfs.c: `vfs_lookup` and `vfs_freeze_inodes`.
pub mod Deepest
use umsftpd.Prelude.{
  ℕ, ◌+◌, ◌-◌, ◌^◌, Bool, true, false, not, List, [], ◌∷◌, ◌++◌, Option, none, some, Bytes, length,
  ltb, ◌==◌, bit_and, bit_or, if◌then◌else◌, Outcome, done, undefined, ◌>>=◌, codes,
}
use umsftpd.Paths.{is_absolute_path, truncate_trailing_slash, pathcmp, path_split}
use umsftpd.Paths.Checks.{const_basename}
use umsftpd.StringList
use umsftpd.StringList.{StringList}
use umsftpd.Vfs.{Inode, Vfs, Memory, Site, InternalError, set_error, find_inode, find_in}

-- `(flags | set) & ~reset` on `unsigned int`.
unfoldable pub apply_flags : ℕ → ℕ → ℕ → ℕ
apply_flags flags set reset = bit_and (bit_or flags set) (2 ^ 32 - 1 - reset)

-- `struct vfs_lookup_result_t`
pub record LookupResult : Type 0 where
  pub flags : ℕ
  pub inode : Option Inode
  pub mountpoint : Option Inode

-- The body of `vfs_lookup_splitter` behind `vfs_find_inode`.
unfoldable pub visit_inode : Option Inode → Bool → LookupResult → LookupResult
visit_inode none is_full_path result = result
visit_inode (some found) is_full_path result = record {
  flags = apply_flags result.flags found.flags_set found.flags_reset;
  inode = if is_full_path then some found else result.inode;
  mountpoint = elim found.target_path [ none ↦ result.mountpoint | some t ↦ some found ];
}

-- `vfs_lookup_splitter`, which always returns true.
unfoldable pub lookup_splitter : Vfs → Bytes → Bool → LookupResult → LookupResult × Bool
unfolding visit_inode
lookup_splitter vfs path is_full_path result =
    (visit_inode (find_inode vfs path) is_full_path result, true)

-- `vfs_lookup`; `none` is the result false. A path that is not absolute has been refused before
-- `mpath` is made, so `mpath` is always the path itself.
unfoldable pub lookup : Vfs → Bytes → Vfs × Option LookupResult
lookup vfs path =
    if not vfs.frozen
    then (set_error vfs InternalError.inode_finalization_error, none)
    else if not (is_absolute_path path)
    then (set_error vfs InternalError.lookup_non_absolute, none)
    else (
      vfs,
      some (
          path_split (lookup_splitter vfs) path
            (record { flags = vfs.base_flags; inode = none; mountpoint = none })),
    )

-- `vfs_freeze_inodes` behind the test for frozen inodes.
unfoldable pub freeze_now : (List Inode → List Inode) → Vfs → Vfs
freeze_now qsort vfs = record vfs {
  inodes = if ltb 0 (length vfs.inodes) then qsort vfs.inodes else vfs.inodes;
  frozen = true;
}

-- `vfs_freeze_inodes`. An error for inodes that are frozen is recorded, and they are sorted again.
-- The order in which `qsort` leaves inodes of equal paths is open, so the sorting is a parameter.
unfoldable pub freeze_inodes : (List Inode → List Inode) → Vfs → Vfs
unfolding freeze_now
freeze_inodes qsort vfs =
    freeze_now qsort
      (if vfs.frozen then set_error vfs InternalError.inode_finalization_error else vfs)
