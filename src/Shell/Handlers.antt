-- ===== src/Shell/Handlers.antt =====
-- vfsdebug.c: the handlers of the shell's commands, with what they print on `stdout` and `stderr`. What
-- the operating system answers is a parameter.
use umsftpd.Prelude.{
  ℕ, zero, suc, ◌+◌, Bool, true, false, not, List, [], ◌∷◌, ◌++◌, Option, none, some, Bytes, codes,
  length, take, get_elem?, ◌==◌, if◌then◌else◌, Outcome, done, undefined, ◌>>=◌,
}
use umsftpd.Paths.Checks.{LstatResult}
use umsftpd.Vfs.{Inode, Vfs, Memory}
use mathlib.Core.List.{map}
use umsftpd.Vfs.System.{is_ok, with_handle, StatResult, FopenResult, FileMode}
use umsftpd.Vfs.Node.{VfsError, Handle}
use umsftpd.Vfs.Handles.{Transfer, chdir, opendir, open_file, usable, transfer}
use umsftpd.Vfs.Stat.{Dirent, stat}
use umsftpd.Vfs.Readdir.{DirItem, readdir}
use umsftpd.Shell.Print.{Printed, out, err, error_str, print_dirent}

-- The calls on the operating system. Reading a file gives one result after another, with the content of
-- the buffer, and behind these it is at its end; a write to `stdout` takes some of its bytes. `items` is
-- what a directory has up to its end.
pub record Os : Type 0 where
  pub memory : Memory
  pub lstat : Bytes → LstatResult
  pub os_stat : Option Bytes → StatResult
  pub os_opendir : Option Bytes → Option ℕ
  pub fopen : Option Bytes → Bytes → FopenResult
  pub freads : List ((ℕ → ℕ → Transfer) × Bytes)
  pub fwrite : ℕ → ℕ → Transfer
  pub stdout_takes : ℕ → ℕ
  pub fstatat : Bytes → StatResult
  pub items : List DirItem
  pub time_text : ℕ → Bytes

-- `arguments[i]`; behind the arguments given, the array is not initialised.
abbrev pub argument : List Bytes → ℕ → Outcome Bytes
argument arguments i = elim (get_elem? arguments i) [ none ↦ undefined | some a ↦ done a ]

-- The end of `vfs_shell_ls` and what it leaves: the list of the inode, which the search may have sorted.
abbrev pub keep_list : Vfs → Option Inode → Vfs
keep_list vfs none = vfs
keep_list vfs (some inode) = record vfs {
  inodes =
      map
        (λ (n : Inode).
          if n.id == inode.id then record n { virtual_subdirs = inode.virtual_subdirs } else n)
        vfs.inodes;
}

-- What a handler returns, and what it has printed.
abbrev pub Reply : Type 0
Reply = Bool × List Printed

-- A handler that cannot open its file.
abbrev pub open_error : Vfs → VfsError → Vfs × Reply
open_error vfs result = (vfs, (false, out (codes "Error: " ++ error_str result ++ codes "\n") ∷ []))

-- What a handler prints for the result of its call.
abbrev pub report : VfsError → List Printed
report result =
    if is_ok result then [] else out (codes "Error: " ++ error_str result ++ codes "\n") ∷ []

abbrev pub then_print : {A : Type 0} → List Printed → A × Reply → A × Reply
then_print printed (a, (success, rest)) = (a, (success, printed ++ rest))

-- One call for each name of the list, for each entry of the stream, and for the end.
abbrev pub listed : Option Inode → ℕ
listed none = 0
listed (some inode) = elim inode.virtual_subdirs [ none ↦ 0 | some list ↦ length list.strings ]

abbrev pub turns : Handle → List DirItem → ℕ
turns handle items = suc (listed handle.inode + length items)

-- `fread` at the end of a file.
abbrev pub at_end : ℕ → ℕ → Transfer
at_end file size = record { transferred = 0; errno_set = false }

module _ (os : Os) where
  -- The loop of `vfs_shell_ls`, by the calls of `vfs_readdir`. To go on when the calls are used up is
  -- undefined.
  unfoldable pub ls_loop : Bytes → ℕ → Handle → List DirItem → Dirent → Outcome (Handle × Reply)
  ls_loop path zero handle items dirent = undefined
  ls_loop path (suc calls) handle items dirent = do
    (handle', items', result, dirent') ← readdir os.fstatat handle items dirent
    (if not (is_ok result)
        then done (
          handle',
          (
            false,
            err (codes "vfs_readdir " ++ path ++ codes ": " ++ error_str result ++ codes "\n") ∷ [],
          ),
        )
        else if dirent'.eof
        then done (handle', (true, []))
        else ls_loop path calls handle' items' dirent'
          >>= (λ r. done (then_print (out (print_dirent os.time_text dirent') ∷ []) r)))

  -- `vfs_shell_ls`; the entry that is filled in is not initialised.
  unfoldable pub shell_ls : Dirent → Vfs → List Bytes → Outcome (Vfs × Reply)
  shell_ls stack vfs arguments = do
    path ← (if length arguments == 0 then done (codes ".") else argument arguments 0)
    opened ← opendir os.memory os.lstat os.os_opendir vfs (some path)
    with_handle opened
        (λ vfs' result. (
          vfs',
          (
            false,
            err (codes "diropen " ++ path ++ codes ": " ++ error_str result ++ codes "\n") ∷ [],
          ),
        ))
        (λ vfs' handle. (do
          (handle', reply) ← ls_loop path (turns handle os.items) handle os.items stack
          done (keep_list vfs' handle'.inode, reply)))

  -- `vfs_shell_cd`
  unfoldable pub shell_cd : Vfs → List Bytes → Outcome (Vfs × Reply)
  shell_cd vfs arguments = do
    path ← argument arguments 0
    (vfs', result) ← chdir os.memory os.lstat os.os_stat vfs (some path)
    done (vfs', (is_ok result, report result))

  -- What `vfs_shell_stat` prints.
  abbrev pub stat_printed : VfsError → Option Dirent → List Printed
  stat_printed result none = report result
  stat_printed result (some dirent) = out (print_dirent os.time_text dirent) ∷ []

  -- `vfs_shell_stat`
  unfoldable pub shell_stat : Vfs → List Bytes → Outcome (Vfs × Reply)
  shell_stat vfs arguments = do
    path ← argument arguments 0
    (vfs', result, dirent) ← stat os.memory os.lstat os.os_stat vfs (some path)
    done (vfs', (is_ok result, stat_printed result dirent))

  -- The loop of `vfs_shell_cat`, by what the calls of `fread` give.
  unfoldable pub cat_loop : Handle → List ((ℕ → ℕ → Transfer) × Bytes) → Outcome Reply
  cat_loop handle [] = do (result, len) ← transfer at_end handle 1024; done (is_ok result, [])
  cat_loop handle ((fread, buffer) ∷ freads) = do
    (result, len) ← transfer fread handle 1024
    (if len == 0
        then done (is_ok result, [])
        else if not (os.stdout_takes len == len)
        then done (
          is_ok result,
          out (take (os.stdout_takes len) buffer) ∷ err (codes "Short write to stdout.\n") ∷ [],
        )
        else if is_ok result
        then (do
          (success, printed) ← cat_loop handle freads
          done (success, out (take len buffer) ∷ printed))
        else done (false, out (take len buffer) ∷ []))

  -- `vfs_shell_cat`
  unfoldable pub shell_cat : Vfs → List Bytes → Outcome (Vfs × Reply)
  shell_cat vfs arguments = do
    path ← argument arguments 0
    opened ← open_file os.memory os.lstat os.os_stat os.fopen vfs (some path) FileMode.read
    with_handle (usable opened) open_error
        (λ vfs' handle. (do reply ← cat_loop handle os.freads; done (vfs', reply)))

  -- `vfs_shell_put`
  unfoldable pub shell_put : Vfs → List Bytes → Outcome (Vfs × Reply)
  shell_put vfs arguments = do
    path ← argument arguments 0
    opened ← open_file os.memory os.lstat os.os_stat os.fopen vfs (some path) FileMode.write
    with_handle (usable opened) open_error (λ vfs' handle. (do
      (result, len) ← transfer os.fwrite handle (length (codes "This is now in a file.") + 1)
      done (vfs', (is_ok result, []))))
