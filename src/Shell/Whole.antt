-- ===== src/Shell/Whole.antt =====
-- The whole shell of vfsdebug.c: whatever lines it is given, it goes on from a well-formed file system.
use umsftpd.Prelude.{ℕ, ◌≤◌, ◌≡◌, List, Option, none, some, Outcome, done}
use umsftpd.Vfs.{Vfs}
use umsftpd.Vfs.Node.Mapped.{IsVfs}
use umsftpd.Shell.Print.{Printed}
use umsftpd.Shell.{Handler, cd, show_stat, cat, put, ShellCommand}
use umsftpd.Shell.Files.{Safe}

-- How many arguments a handler reads.
abbrev reads : Handler → ℕ
reads cd = 1
reads show_stat = 1
reads cat = 1
reads put = 1
reads _ = 0

-- The table asks for as many arguments as a handler reads.
abbrev IsGuarded : ShellCommand → Type 0
IsGuarded c = reads c.handler ≤ c.min_argument_count

abbrev IsFound : Option ShellCommand → Type 0
IsFound none = Unit
IsFound (some c) = IsGuarded c

-- A line that is run, with a well-formed file system behind it.
abbrev Runs : Outcome (Vfs × List Printed) → Type 0
Runs o = (r : Vfs × List Printed) × (o ≡ done r) × IsVfs r.0
