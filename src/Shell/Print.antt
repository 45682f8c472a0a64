-- ===== src/Shell/Print.antt =====
-- vfsdebug.c: what it writes for an entry, an inode and a file system, and the texts of the error
-- codes in vfs.c. The text that `localtime_r` and `strftime` make of a time is a parameter.
use umsftpd.Prelude.{
  ℕ, zero, suc, ◌+◌, ◌-◌, ◌*◌, ◌/◌, ◌^◌, Bool, true, false, not, [], ◌∷◌, ◌++◌, Bytes, codes,
  length, ◌==◌, bit_and, if◌then◌else◌,
}
use umsftpd.Prelude.Printf.{column, spaces}
use umsftpd.Vfs.Node.{VfsError}
use umsftpd.Vfs.Stat.{Dirent}

-- A piece of output, on `stdout` or `stderr`.
pub data Printed : Type 0 where
  out err : Bytes → Printed

-- `vfs_error_str`
abbrev pub error_str : VfsError → Bytes
error_str VfsError.ok = codes "success"
error_str VfsError.out_of_handles = codes "out of handles"
error_str VfsError.permission_denied = codes "permission denied"
error_str VfsError.no_such_file_or_directory = codes "no such file or directory"
error_str VfsError.internal_error = codes "internal error"
error_str VfsError.not_a_directory = codes "not a directory"
error_str VfsError.not_a_file = codes "not a file"
error_str VfsError.io_error = codes "I/O error"

-- One bit of the permissions.
abbrev pub permission_bit : ℕ → ℕ → Bool
permission_bit permissions bit = bit_and (permissions / 2 ^ bit) 1 == 1

-- The loop over the bits in threes, by the rounds left.
abbrev pub mode_text : ℕ → ℕ → Bytes
mode_text zero permissions = []
mode_text (suc rounds) permissions =
    let bit = 3 * suc rounds in
    (if permission_bit permissions (bit - 1) then b'r' else b'-')
    ∷ (if permission_bit permissions (bit - 2) then b'w' else b'-')
    ∷ (if permission_bit permissions (bit - 3) then b'x' else b'-')
    ∷ mode_text rounds permissions

-- The colour of an entry, 0 for none: blue for a directory, green for what can be executed.
abbrev pub dirent_color : Dirent → ℕ
dirent_color d = if not d.is_file then 4 else if not (bit_and d.permissions 73 == 0) then 2 else 0

abbrev pub escape : Bytes → Bytes
escape text = 27 ∷ text

-- `vfs_print_dirent_color`
unfoldable pub print_dirent_color : Dirent → Bool → Bytes
print_dirent_color d start =
    let color = dirent_color d in
    if color == 0
    then []
    else if start
    then escape (codes "[01;3") ++ (b'0' + color) ∷ codes "m"
    else escape (codes "[0m")

-- `vfs_print_dirent`
unfoldable pub print_dirent : (ℕ → Bytes) → Dirent → Bytes
unfolding column print_dirent_color
print_dirent time_text d =
    (if d.is_file then codes "-" else codes "d")
    ++ (mode_text 3 d.permissions
        ++ (codes "   "
            ++ (column 4 d.uid
                ++ (codes " "
                    ++ (column 4 d.gid
                        ++ (codes "   "
                            ++ (column 8 d.filesize
                                ++ (codes "  "
                                    ++ (time_text d.mtime
                                        ++ (codes "  "
                                            ++ (print_dirent_color d true
                                                ++ (d.filename
                                                    ++ (print_dirent_color d false
                                                        ++ codes "\n")))))))))))))

-- `%-20s` of a text.
abbrev pub left_column : ℕ → Bytes → Bytes
left_column width text = text ++ spaces (width - length text)
