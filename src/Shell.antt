-- ===== src/Shell.antt =====
-- vfsdebug.c: the shell, which runs commands on a file system.
pub mod Print
pub mod Handlers
pub mod Reader
pub mod Listing
pub mod Masked
pub mod Laws
pub mod Stat
pub mod Files
pub mod Safe
pub mod Whole
pub mod Lines
pub mod Dump
pub mod Program
mod Tests
use umsftpd.Prelude.{
  ℕ, zero, suc, ◌+◌, ◌-◌, Bool, true, false, not, ◌&&◌, ◌||◌, List, [], ◌∷◌, ◌++◌, Option, none,
  some, Bytes, codes, length, take, drop, get_elem?, leb, ltb, ◌==◌, str_eq, char_at, if◌then◌else◌,
  Outcome, done, undefined, ◌>>=◌,
}
use umsftpd.Paths.Checks.{LstatResult, strip_crlf}
use umsftpd.Vfs.{Inode, Vfs, Memory}
use mathlib.Core.List.{map}
use umsftpd.Vfs.System.{is_ok, with_handle, StatResult, FopenResult, FileMode}
use umsftpd.Vfs.Node.{VfsError, HandleType, Handle, Opened}
use umsftpd.Vfs.Handles.{Transfer, chdir, opendir, open_file, transfer}
use umsftpd.Vfs.Stat.{Dirent, stat}
use umsftpd.Vfs.Readdir.{DirItem, readdir}
use umsftpd.Prelude.Printf.{decimal}
use umsftpd.Shell.Print.{Printed, out, err, left_column}
use umsftpd.Shell.Handlers.{Os, Reply, shell_ls, shell_cd, shell_stat, shell_cat, shell_put}

-- The handlers, of which some are not implemented and do nothing.
pub data Handler : Type 0 where
  ls find cd show_stat cat mod_file put rm mkdir rmdir help : Handler

-- `struct vfs_shell_command_t`
pub record ShellCommand : Type 0 where
  pub command : Bytes
  pub min_argument_count : ℕ
  pub max_argument_count : ℕ
  pub arg_text : Option Bytes
  pub help_text : Option Bytes
  pub handler : Handler

abbrev pub shell_command : Bytes → ℕ → ℕ → Bytes → Bytes → Handler → ShellCommand
shell_command command min max arg_text help_text handler = record {
  command = command;
  min_argument_count = min;
  max_argument_count = max;
  arg_text = some arg_text;
  help_text = some help_text;
  handler = handler;
}

-- `vfs_shell_commands`
abbrev pub shell_commands : List ShellCommand
shell_commands =
    shell_command (codes "ls") 0 1 (codes "([path])") (codes "list a given path (or cwd)") ls
    ∷ shell_command (codes "find") 0 1 (codes "([path])") (codes "recursively traverse paths") find
    ∷ shell_command (codes "cd") 1 1 (codes "[path]") (codes "change directory to given path") cd
    ∷ shell_command (codes "stat") 1 1 (codes "[path/file]") (codes "stat the given path") show_stat
    ∷ shell_command (codes "cat") 1 1 (codes "[file]") (codes "show contents of the given file") cat
    ∷ shell_command (codes "mod") 1 1 (codes "[file]") (codes "modify the given file") mod_file
    ∷ shell_command (codes "put") 1 1 (codes "[file]") (codes "create a given file") put
    ∷ shell_command (codes "rm") 1 1 (codes "[file]") (codes "unlink the given file") rm
    ∷ shell_command (codes "mkdir") 1 1 (codes "[path]") (codes "create a directory") mkdir
    ∷ shell_command (codes "rmdir") 1 1 (codes "[path]") (codes "remove a directory") rmdir
    ∷ record (shell_command (codes "help") 0 0 [] (codes "show this help page") help) {
      arg_text = none;
    }
    ∷ record (shell_command (codes "?") 0 0 [] [] help) { arg_text = none; help_text = none }
    ∷ []

abbrev pub text_or_none : Option Bytes → Bytes
text_or_none none = []
text_or_none (some text) = text

-- A line of the help page: of the command with its arguments, 63 characters are kept.
abbrev pub help_line : ShellCommand → List Printed
help_line c = elim c.help_text [
  | none ↦ []
  | some help_text ↦
      let lhs = take 63 (c.command ++ codes " " ++ text_or_none c.arg_text) in
      err (codes "  " ++ left_column 20 lhs ++ codes " " ++ help_text ++ codes "\n") ∷ []
]

abbrev pub help_lines : List ShellCommand → List Printed
help_lines [] = []
help_lines (c ∷ commands) = help_line c ++ help_lines commands

-- `vfs_shell_help`
abbrev pub shell_help : Vfs → Vfs × Reply
shell_help vfs = (vfs, (true, err (codes "help:\n") ∷ help_lines shell_commands))

-- A handler on its arguments.
abbrev pub handle_command : Os → Dirent → Handler → Vfs → List Bytes → Outcome (Vfs × Reply)
handle_command os stack ls vfs arguments = shell_ls os stack vfs arguments
handle_command os stack cd vfs arguments = shell_cd os vfs arguments
handle_command os stack show_stat vfs arguments = shell_stat os vfs arguments
handle_command os stack cat vfs arguments = shell_cat os vfs arguments
handle_command os stack put vfs arguments = shell_put os vfs arguments
handle_command os stack help vfs arguments = done (shell_help vfs)
handle_command os stack _ vfs arguments = done (vfs, (true, []))

-- `strtok` with a space, over the rest of a text and the token that has begun.
abbrev pub flush : Bytes → List Bytes → List Bytes
flush [] tokens = tokens
flush (c ∷ token) tokens = (c ∷ token) ∷ tokens

unfoldable pub tokens_from : Bytes → Bytes → List Bytes
tokens_from token [] = flush token []
tokens_from token (c ∷ text) =
    let next = tokens_from [] text in
    let same = tokens_from (token ++ c ∷ []) text in if c == b' ' then flush token next else same

-- The command of a name.
abbrev pub find_command : Bytes → List ShellCommand → Option ShellCommand
find_command name [] = none
find_command name (c ∷ commands) =
    let rest = find_command name commands in if str_eq c.command name then some c else rest

-- Where the help page is.
abbrev pub see_help : Bytes
see_help = codes " Type \"help\" for a help page.\n"

abbrev pub quoted : Bytes → Bytes
quoted name = b'"' ∷ (name ++ codes "\"")

-- The call of a command's handler, if the number of arguments is right.
unfoldable pub run_found :
    Os → Dirent → Vfs → Bytes → List Bytes → Option ShellCommand → Outcome (Vfs × List Printed)
run_found os stack vfs name arguments none =
    done (vfs, err (codes "No such command: " ++ quoted name ++ codes "." ++ see_help) ∷ [])
run_found os stack vfs name arguments (some c) =
    if leb c.min_argument_count (length arguments) && leb (length arguments) c.max_argument_count
    then (do (vfs', reply) ← handle_command os stack c.handler vfs arguments; done (vfs', reply.1))
    else done (
      vfs,
      err (
            codes "Invalid amount of argument for: "
            ++ quoted name
            ++ codes ". Expected "
            ++ decimal 10 c.min_argument_count
            ++ codes " to "
            ++ decimal 10 c.max_argument_count
            ++ codes "."
            ++ see_help)
          ∷ [],
    )

-- The tokens that are kept, as a command and its arguments.
abbrev pub run_tokens : Os → Dirent → Vfs → List Bytes → Outcome (Vfs × List Printed)
run_tokens os stack vfs [] = done (vfs, [])
run_tokens os stack vfs (name ∷ arguments) =
    run_found os stack vfs name arguments (find_command name shell_commands)

-- The complaints about the tokens that are not kept.
abbrev pub too_many : List Bytes → List Printed
too_many [] = []
too_many (token ∷ tokens) =
    err (codes "Too many tokens. Not executing command.\n") ∷ too_many tokens

abbrev pub with_output : {A : Type 0} → List Printed → A × List Printed → A × List Printed
with_output printed (a, rest) = (a, printed ++ rest)

-- One turn of `vfs_shell` with the line that `fgets` gives, behind the prompt. At most eight tokens are
-- kept.
abbrev pub run_line : Os → Dirent → Vfs → Bytes → Outcome (Vfs × List Printed)
run_line os stack vfs line =
    let tokens = tokens_from [] (strip_crlf line) in
    run_tokens os stack vfs (take 8 tokens)
    >>= (λ r. done (with_output (too_many (drop 8 tokens)) r))

-- The prompt.
abbrev pub prompt : Vfs → List Printed
prompt vfs =
    out (codes "vfs [")
    ∷ out (if char_at vfs.cwd_path 0 == 0 then codes "/" else vfs.cwd_path)
    ∷ out (codes "]: ")
    ∷ []

-- `vfs_shell`, by its lines, each with what the operating system answers.
unfoldable pub run_shell : Vfs → List (Os × Dirent × Bytes) → Outcome (Vfs × List Printed)
run_shell vfs [] = done (vfs, prompt vfs)
run_shell vfs ((os, stack, line) ∷ lines) = do
  (vfs', printed) ← run_line os stack vfs line
  (run_shell vfs' lines >>= (λ r. done (with_output (prompt vfs ++ printed) r)))
