-- ===== src/Shell/Tests.antt =====
-- vfsdebug.c: the lines of a user on a small file system.
use mathlib.Core.List.{map}
use umsftpd.Prelude.{
  suc, ◌+◌, ◌%◌, ◌≡◌, refl, true, false, List, [], ◌∷◌, ◌++◌, some, Bytes, codes, length,
  if◌then◌else◌, done, arith,
}
use umsftpd.Vfs.{Vfs, has_flag, flag_read_only}
use umsftpd.Vfs.System.{Stat, regular, stat_failed, Errno}
use umsftpd.Vfs.Stat.{Dirent, stat_statbuf, stat_virtual_directory}
use umsftpd.Vfs.Readdir.{DirentType, entry}
use umsftpd.Vfs.Fixture.{granted, present, missing, opens, a_node, b_list, hides_b, a_handle}
use umsftpd.Vfs.Readdir.Listing.{visible}
use umsftpd.Vfs.Readdir.Whole.{dir_of}
use umsftpd.Shell.Reader.{read_line}
use umsftpd.Shell.Listing.{listed, read_line-print_dirent}
use umsftpd.Shell.Masked.{mask_w, mode_text-stat}
use umsftpd.Shell.Lines.{map_outcome, stdout_texts, ls_loop-lines}
use umsftpd.Shell.Print.{mode_text, print_dirent}
use umsftpd.Shell.Handlers.{Os, ls_loop}
use umsftpd.Shell.{tokens_from}

-- A file that has five bytes, and a directory of one entry that cannot be examined.
abbrev machine : Os
machine = record {
  memory = granted;
  lstat = present;
  os_stat = missing;
  os_opendir = λ path. some 4;
  fopen = opens;
  freads =
      ((λ file size. record { transferred = 5; errno_set = false }), codes "hello")
      ∷ ((λ file size. record { transferred = 0; errno_set = false }), [])
      ∷ [];
  fwrite = λ file size. record { transferred = size; errno_set = false };
  stdout_takes = λ size. size;
  fstatat = λ name. stat_failed Errno.eacces;
  items = entry (codes "b") DirentType.dt_dir ∷ entry (codes "x") DirentType.dt_reg ∷ [];
  time_text = λ t. codes "1970-01-01 00:00:00";
}

abbrev uninitialised : Dirent
uninitialised = stat_virtual_directory (codes "junk") 0

abbrev typed : Bytes → Os × Dirent × Bytes
typed line = (machine, uninitialised, line)

abbrev session : List (Os × Dirent × Bytes)
session =
    typed (codes "cd  /a\n")
    ∷ typed (codes "ls\n")
    ∷ typed (codes "cat /a/b\n")
    ∷ typed (codes "put\n")
    ∷ typed (codes "put /a/c\r\n")
    ∷ typed (codes "stat .")
    ∷ typed (codes "rm -rf / now")
    ∷ typed []
    ∷ []

tokens_test : tokens_from [] (codes "cd  /a ") ≡ codes "cd" ∷ codes "/a" ∷ []
unfolding tokens_from
tokens_test = refl

-- A file that all may write.
abbrev shared : Stat
shared = record {
  st_type = regular;
  st_mode = 33206;
  st_uid = 0;
  st_gid = 0;
  st_size = 0;
  st_mtim = 0;
  st_ctim = 0;
  st_atim = 0;
}

-- An executable file with a colour in its name.
abbrev tool : Dirent
tool = record {
  filename = 27 ∷ codes "[0m tool";
  eof = false;
  is_file = true;
  uid = 1000;
  gid = 7;
  filesize = 0;
  permissions = 365;
  mtime = 0;
  ctime = 0;
  atime = 0;
}

read_line-print_dirent_example :
    read_line (print_dirent (λ t. codes "1970-01-01 00:00:00") tool)
    ≡ listed true 365 1000 7 0 (27 ∷ codes "[0m tool")
read_line-print_dirent_example =
    read_line-print_dirent (λ t. codes "1970-01-01 00:00:00") tool (omega arith) (omega arith)
      (omega arith) (omega arith) refl

mode_text-stat_example :
    (mode_text 3 (stat_statbuf shared (codes "f") 1).permissions ≡ (
      if has_flag 1 flag_read_only
      then mask_w (mode_text 3 (33206 % 512))
      else mode_text 3 (33206 % 512)))
    × (mode_text 3 (stat_virtual_directory (codes "f") 1).permissions
        ≡ (if has_flag 1 flag_read_only then mask_w (codes "rwxr-xr-x") else codes "rwxr-xr-x"))
mode_text-stat_example = mode_text-stat shared (codes "f") 1

mode_text-stat_test :
    mode_text 3 (stat_statbuf shared (codes "f") 1).permissions ≡ codes "r--r--r--"
unfolding stat_statbuf
mode_text-stat_test = refl

ls_loop-lines_example :
    map_outcome
      (λ r. stdout_texts r.1.1)
      (ls_loop machine
        (codes ".")
        (1 + suc (length (visible machine.fstatat 0 hides_b machine.items)))
        (dir_of a_handle a_node b_list 4 0)
        machine.items
        uninitialised)
    ≡ done (
        map (print_dirent machine.time_text) (
          map (λ name. stat_virtual_directory name 0) (codes "b" ∷ [])
          ++ visible machine.fstatat 0 hides_b machine.items))
ls_loop-lines_example =
    ls_loop-lines machine (codes ".") a_handle a_node 4 hides_b b_list machine.items uninitialised
      ((λ e. cc), (λ name. refl))
