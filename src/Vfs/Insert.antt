-- ===== src/Vfs/Insert.antt =====
-- vfs.c: `vfs_add_inode` and the functions below it.
pub mod Step
pub mod Splitter
pub mod Grown
pub mod Refine
pub mod Distinct
use umsftpd.Prelude.{
  ℕ, ◌+◌, ◌-◌, ◌^◌, Bool, true, false, not, List, [], ◌∷◌, ◌++◌, Option, none, some, Bytes, length,
  ltb, ◌==◌, bit_and, bit_or, if◌then◌else◌, Outcome, done, undefined, ◌>>=◌, codes,
}
use umsftpd.Paths.{is_absolute_path, truncate_trailing_slash, pathcmp, path_split}
use umsftpd.Paths.Checks.{const_basename}
use umsftpd.StringList
use umsftpd.StringList.{StringList}
use umsftpd.Vfs.{
  Inode, Vfs, Memory, Site, InternalError, set_error, target_length, find_inode, find_in,
}

-- `stringlist_insert` on the list of the inode that a pointer names; a NULL list is dereferenced.
unfoldable pub insert_subdir : Memory → Bytes → ℕ → List Inode → Bytes → Outcome (List Inode)
insert_subdir mem path parent [] name = done []
insert_subdir mem path parent (inode ∷ rest) name = elim (inode.id == parent) [
  | true ↦ elim inode.virtual_subdirs [
    | none ↦ undefined
    | some list ↦ done (
        record inode {
          virtual_subdirs =
              some
                (StringList.insert (mem Site.subdir_copy path) (mem Site.subdir_array path) list
                  name).0;
        }
        ∷ rest)
  ]
  | false ↦ insert_subdir mem path parent rest name >>= λ rest'. done (inode ∷ rest')
]

-- The part of `vfs_add_single_inode` that enters a new inode under its parent.
unfoldable pub link_parent : Memory → Vfs → Bytes → Option ℕ → Outcome Vfs
link_parent mem vfs vpath none = done vfs
link_parent mem vfs vpath (some p) = do
  name ← const_basename vpath
  inodes ← insert_subdir mem vpath p vfs.inodes name
  done (record vfs { inodes = inodes })

abbrev pub truncated_target : Option Bytes → Option Bytes
truncated_target none = none
truncated_target (some t) = some (truncate_trailing_slash t)

-- The fields that `vfs_add_single_inode` fills in.
abbrev pub make_inode : Memory → ℕ → Bytes → Option Bytes → ℕ → ℕ → Option ℕ → Inode
make_inode mem id vpath target_path flags_set flags_reset parent = record {
  id = id;
  parent = parent;
  flags_set = flags_set;
  flags_reset = flags_reset;
  virtual_path = vpath;
  target_path = truncated_target target_path;
  vlen = length vpath;
  tlen = target_length (truncated_target target_path);
  virtual_subdirs = StringList.new (mem Site.subdirs vpath);
}

-- `vfs_add_single_inode`: the new state and the pointer to the new inode, or NULL.
unfoldable pub add_single_inode :
    Memory → Vfs → Bytes → Option Bytes → ℕ → ℕ → Option ℕ → Outcome (Vfs × Option ℕ)
add_single_inode mem vfs virtual_path target_path flags_set flags_reset parent =
    let failed = done (set_error vfs InternalError.add_inode_out_of_memory, none) in
    let vpath = truncate_trailing_slash virtual_path in
    if not (mem Site.vpath_copy virtual_path)
    then failed
    else if (elim target_path [ none ↦ false | some t ↦ not (mem Site.tpath_copy virtual_path) ])
    then failed
    else if not (mem Site.new_inode virtual_path)
    then failed
    else (do
      linked ← link_parent mem vfs vpath parent
      (if not (mem Site.inode_array virtual_path)
          then done (set_error linked InternalError.add_inode_out_of_memory, none)
          else (let id = length linked.inodes in
              let inode = make_inode mem id vpath target_path flags_set flags_reset parent in
              done (record linked { inodes = linked.inodes ++ inode ∷ [] }, some id))))

-- The body of `vfs_add_inode_splitter` behind `vfs_find_inode`, on the state and the inode of the
-- prefix before; the result is the new state and `ctx->previous`.
unfoldable pub enter_prefix :
    Memory
    → Option Bytes
    → ℕ
    → ℕ
    → Bytes
    → Bool
    → Vfs
    → Option ℕ
    → Option Inode
    → Outcome (Vfs × Option ℕ)
enter_prefix mem target flags_set flags_reset path is_full_path vfs previous (some inode) =
    done (vfs, some inode.id)
enter_prefix mem target flags_set flags_reset path is_full_path vfs previous none =
    if not is_full_path
    then add_single_inode mem vfs path none 0 0 previous
    else add_single_inode mem vfs path target flags_set flags_reset previous

-- `vfs_add_inode_splitter`, which always returns true.
unfoldable pub add_inode_splitter :
    Memory
    → Option Bytes
    → ℕ
    → ℕ
    → Bytes
    → Bool
    → Outcome (Vfs × Option ℕ)
    → Outcome (Vfs × Option ℕ) × Bool
unfolding enter_prefix
add_inode_splitter mem target flags_set flags_reset path is_full_path ctx = (
  (ctx >>= λ (vfs, previous).
      enter_prefix mem target flags_set flags_reset path is_full_path vfs previous
        (find_inode vfs path)),
  true,
)

abbrev pub given_relative : Option Bytes → Bool
given_relative none = false
given_relative (some t) = not (is_absolute_path t)

-- The part of `vfs_add_inode` behind the test for a duplicate.
unfoldable pub add_unless_found :
    Memory → Vfs → Bytes → Option Bytes → ℕ → ℕ → Option Inode → Outcome (Vfs × Bool)
add_unless_found mem vfs virtual_path target_path flags_set flags_reset (some inode) =
    done (set_error vfs InternalError.add_inode_already_exists, false)
add_unless_found mem vfs virtual_path target_path flags_set flags_reset none = do
  (vfs', previous) ←
      path_split (add_inode_splitter mem target_path flags_set flags_reset) virtual_path
        (done (vfs, none))
  done (vfs', true)

-- `vfs_add_inode`
unfoldable pub add_inode : Memory → Vfs → Bytes → Option Bytes → ℕ → ℕ → Outcome (Vfs × Bool)
unfolding add_unless_found
add_inode mem vfs virtual_path target_path flags_set flags_reset =
    if not (is_absolute_path virtual_path)
    then done (set_error vfs InternalError.add_inode_parameter_error, false)
    else if given_relative target_path
    then done (set_error vfs InternalError.add_inode_parameter_error, false)
    else add_unless_found mem vfs virtual_path target_path flags_set flags_reset
        (find_inode vfs virtual_path)
