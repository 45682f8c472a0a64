-- ===== src/Shell/Dump.antt =====
-- vfsdebug.c: the dump of a file system and of a lookup. The text of an error message is a parameter.
use umsftpd.Prelude.{
  ℕ, ◌+◌, not, ◌||◌, List, [], ◌∷◌, ◌++◌, none, some, Bytes, codes, length, ◌==◌, if◌then◌else◌,
}
use umsftpd.Prelude.Printf.{decimal, column, hexadecimal}
use umsftpd.Vfs.{
  InternalError, Inode, Vfs, has_flag, flag_read_only, flag_filter_all, flag_filter_hidden,
}
use umsftpd.Vfs.Lookup.{LookupResult}

abbrev pub flag_disallow_create_file : ℕ
flag_disallow_create_file = 8

abbrev pub flag_disallow_create_dir : ℕ
flag_disallow_create_dir = 16

abbrev pub flag_disallow_unlink : ℕ
flag_disallow_unlink = 32

-- One test of `vfs_dump_flags`.
abbrev pub flag_name : ℕ → ℕ → Bytes → Bytes
flag_name flags flag name = if has_flag flags flag then name else []

-- `vfs_dump_flags`
unfoldable pub dump_flags : ℕ → Bytes
dump_flags flags =
    flag_name flags flag_read_only (codes " READ_ONLY")
    ++ flag_name flags flag_filter_all (codes " FILTER_ALL")
    ++ flag_name flags flag_filter_hidden (codes " FILTER_HIDDEN")
    ++ flag_name flags flag_disallow_create_file (codes " DISALLOW_CREATE_FILE")
    ++ flag_name flags flag_disallow_create_dir (codes " DISALLOW_CREATE_DIR")
    ++ flag_name flags flag_disallow_unlink (codes " DISALLOW_UNLINK")

-- `0x%x ` of flags, and their names.
abbrev pub flags_text : ℕ → Bytes
flags_text flags = codes "0x" ++ hexadecimal 8 flags ++ codes " " ++ dump_flags flags

-- `vfs_dump_inode_target`
unfoldable pub dump_inode_target : Inode → Bytes
dump_inode_target inode =
    inode.virtual_path
    ++ elim inode.target_path [ none ↦ [] | some t ↦ codes " => " ++ t ]
    ++ (if not (inode.flags_set == 0) || not (inode.flags_reset == 0)
        then codes " [set = "
          ++ flags_text inode.flags_set
          ++ codes ", reset = "
          ++ flags_text inode.flags_reset
          ++ codes "]"
        else [])

-- The value of an error code.
abbrev pub internal_error_code : InternalError → ℕ
internal_error_code InternalError.add_inode_parameter_error = 0
internal_error_code InternalError.add_inode_already_exists = 1
internal_error_code InternalError.add_inode_out_of_memory = 2
internal_error_code InternalError.map_empty_path = 3
internal_error_code InternalError.cwd_out_of_memory = 4
internal_error_code InternalError.inode_finalization_error = 5
internal_error_code InternalError.cwd_illegal = 6
internal_error_code InternalError.lookup_non_absolute = 7
internal_error_code InternalError.illegal_path = 8
internal_error_code InternalError.sanitize_path_error = 9
internal_error_code InternalError.inode_lookup_error = 10
internal_error_code InternalError.path_map_error = 11
internal_error_code InternalError.missing_argument = 12
internal_error_code InternalError.not_mounted = 13
internal_error_code InternalError.path_not_absolute = 14
internal_error_code InternalError.out_of_memory = 15
internal_error_code InternalError.opendir_failed = 16

-- The lines of the inodes, by the number of those before.
unfoldable pub dump_inodes : ℕ → ℕ → List Inode → Bytes
unfolding dump_inode_target
dump_inodes i count [] = []
dump_inodes i count (inode ∷ inodes) =
    codes "   Inode "
    ++ column 2 (i + 1)
    ++ codes " of "
    ++ decimal 10 count
    ++ codes ": "
    ++ dump_inode_target inode
    ++ codes "\n"
    ++ dump_inodes (i + 1) count inodes

-- `vfs_dump`, with `error.string`.
unfoldable pub dump : Vfs → Bytes → Bytes
unfolding dump_inodes
dump vfs message =
    let code = internal_error_code vfs.error_code in
    codes "VFS details:\n"
    ++ (if not (code == 0)
        then codes "   Last error: " ++ decimal 10 code ++ codes " (" ++ message ++ codes ")\n"
        else [])
    ++ codes "   Max handles: "
    ++ decimal 10 vfs.max_count
    ++ codes ", Inodes: "
    ++ decimal 10 (length vfs.inodes)
    ++ codes "\n"
    ++ codes "   Base flags: "
    ++ flags_text vfs.base_flags
    ++ codes "\n"
    ++ dump_inodes 0 (length vfs.inodes) vfs.inodes

-- `vfs_dump_map_result`
unfoldable pub dump_map_result : LookupResult → Bytes
unfolding dump_inode_target
dump_map_result map_result =
    codes "Map result flags: "
    ++ flags_text map_result.flags
    ++ codes "\n"
    ++ elim map_result.mountpoint [
      | some mountpoint ↦ codes "Mountpoint: " ++ dump_inode_target mountpoint ++ codes "\n"
      | none ↦ codes "No mountpoint.\n"
    ]
    ++ codes "Virtual directory: "
    ++ elim map_result.inode [ some inode ↦ codes "yes" | none ↦ codes "no" ]
    ++ codes "\n"
