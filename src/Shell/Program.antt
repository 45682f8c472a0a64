-- ===== src/Shell/Program.antt =====
-- vfsdebug.c: the program `main` of `__VFS_SHELL__`, which sets up a file system and runs the shell on it.
pub mod Table
pub mod Guarded
pub mod Links
pub mod Mapped
pub mod Writes
mod Tests
use umsftpd.Prelude.{
  ℕ, List, [], ◌∷◌, Option, none, some, Bytes, codes, Outcome, done, undefined, ◌>>=◌,
}
use umsftpd.Vfs.{Inode, Vfs, Memory, flag_read_only, init}
use umsftpd.Vfs.Insert.{add_inode}
use umsftpd.Vfs.Lookup.{freeze_inodes}
use umsftpd.Vfs.Stat.{Dirent}
use umsftpd.Shell.Print.{Printed}
use umsftpd.Shell.Handlers.{Os}
use umsftpd.Shell.{run_shell}

-- The arguments of a call of `vfs_add_inode`.
pub record Mount : Type 0 where
  pub virtual_path : Bytes
  pub target_path : Option Bytes
  pub set : ℕ
  pub reset : ℕ

abbrev pub mount : Bytes → Option Bytes → ℕ → ℕ → Mount
mount virtual_path target_path set reset = record {
  virtual_path = virtual_path;
  target_path = target_path;
  set = set;
  reset = reset;
}

abbrev pub mounts : List Mount
mounts =
    mount (codes "/") (some (codes "/tmp")) flag_read_only 0
    ∷ mount (codes "/virt") none flag_read_only 0
    ∷ mount (codes "/virt/sub1") none flag_read_only 0
    ∷ mount (codes "/virt/sub2") none flag_read_only 0
    ∷ mount (codes "/virt/abcd") none flag_read_only 0
    ∷ mount (codes "/b") (some (codes "/bin")) flag_read_only 0
    ∷ mount (codes "/incoming") (some (codes "/tmp/incoming")) 0 flag_read_only
    ∷ []

-- The calls of `vfs_add_inode`, one behind the other; their results are not looked at.
unfoldable pub add_mounts : Memory → Vfs → List Mount → Outcome Vfs
add_mounts mem vfs [] = done vfs
add_mounts mem vfs (m ∷ ms) = do
  (vfs', success) ← add_inode mem vfs m.virtual_path m.target_path m.set m.reset
  add_mounts mem vfs' ms

-- The file system that `main` sets up. That `vfs_init` fails is not tested for.
unfoldable pub set_up : Memory → (List Inode → List Inode) → Outcome Vfs
set_up mem qsort = elim (init mem) [
  | none ↦ undefined
  | some vfs ↦ add_mounts mem vfs mounts >>= (λ vfs'. done (freeze_inodes qsort vfs'))
]

-- `main`, by the lines of its user.
unfoldable pub main :
    Memory → (List Inode → List Inode) → List (Os × Dirent × Bytes) → Outcome (Vfs × List Printed)
main mem qsort lines = set_up mem qsort >>= (λ vfs. run_shell vfs lines)
