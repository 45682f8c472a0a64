-- ===== src/Shell/Program/Tests.antt =====
-- The program of vfsdebug.c on a concrete machine.
use mathlib.Core.Path.{subst}
use umsftpd.Prelude.{◌≡◌, refl, sym, ap, ◌∙◌, some, codes, Outcome, done, undefined}
use umsftpd.Paths.{is_absolute_path, path_split, pathcmp, truncate_trailing_slash}
use umsftpd.Paths.Checks.{const_basename}
use umsftpd.StringList.{new}
use umsftpd.Vfs.Insert.{add_inode, add_inode_splitter, add_single_inode, link_parent, insert_subdir}
use umsftpd.Vfs.{Vfs, zeroed, init, find_inode}
use umsftpd.Vfs.Fixture.{granted, present, missing, opens, granted-Granted}
use umsftpd.Vfs.Sorter.{sort_inodes, sort_inodes-SortsUp}
use umsftpd.Vfs.System.{FileMode}
use umsftpd.Vfs.Handles.{OpenedFile, chdir, open_file}
use umsftpd.Vfs.Node.{VfsError}
use umsftpd.Shell.Program.{add_mounts, set_up}
use umsftpd.Vfs.Node.Mapped.{IsVfs}
use umsftpd.Vfs.Keep.{chdir-IsVfs}
use umsftpd.Shell.Program.Table.{set_up_lem}
use umsftpd.Shell.Program.Writes.{IfLive, Incoming, open_file-Incoming}

abbrev or_else_value : {A : Type 0} → A → Outcome A → A
or_else_value a (done b) = b
or_else_value a undefined = a

abbrev program : Vfs
program = or_else_value zeroed (set_up granted sort_inodes)

set_up-program : set_up granted sort_inodes ≡ done program
unfolding set_up init is_absolute_path add_mounts add_inode find_inode path_split add_inode_splitter
    add_single_inode link_parent pathcmp truncate_trailing_slash const_basename insert_subdir new
set_up-program = refl

abbrev moved : Vfs × VfsError
moved =
    or_else_value (zeroed, VfsError.ok)
      (chdir granted present missing program (some (codes "incoming")))

returned : {A : Type 0} (d a : A) (o : Outcome A) → o ≡ done a → o ≡ done (or_else_value d o)
returned d a o e = e ∙ ap done (sym (ap (or_else_value d) e))

chdir-program :
    chdir granted present missing program (some (codes "incoming")) ≡ done (moved.0, moved.1)
chdir-program =
    let (made, made_by, p) = set_up_lem granted sort_inodes granted-Granted sort_inodes-SortsUp in
    let v : IsVfs program = subst IsVfs (sym (ap (or_else_value zeroed) made_by)) p.well_formed in
    let (vfs', code, e, _) =
      chdir-IsVfs granted present missing program (some (codes "incoming")) v in
    returned (zeroed, VfsError.ok) (vfs', code)
      (chdir granted present missing program (some (codes "incoming"))) e

open_file-Incoming_example :
    (o : OpenedFile) × (open_file granted present missing opens moved.0
        (some (codes "../b/../incoming/x"))
        FileMode.write
      ≡ done o)
    × IfLive (Incoming present opens FileMode.write) o
open_file-Incoming_example =
    open_file-Incoming granted sort_inodes program moved.0 granted present missing opens
      (some (codes "incoming")) (some (codes "../b/../incoming/x")) moved.1 FileMode.write
      granted-Granted sort_inodes-SortsUp set_up-program chdir-program refl
