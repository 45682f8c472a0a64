-- ===== src/Shell/Program/Writes.antt =====
-- Where the program of vfsdebug.c lets its user write: below "/tmp/incoming" alone.
use mathlib.Core.Path.{subst}
use umsftpd.Prelude.{
  ℕ, inl, inr, ◌≡◌, sym, ap, ◌∙◌, Bool, true, false, not, ◌&&◌, List, ◌∷◌, ◌++◌, Option, some,
  Bytes, All, codes, done,
}
use umsftpd.Paths.Names.{IsClean, render, show}
use umsftpd.Paths.Sanitize.{IsClean→IsName}
use umsftpd.Paths.Checks.{LstatResult, path_contains_symlink}
use umsftpd.Vfs.{Inode, Vfs, Memory, has_flag, flag_read_only, flag_allow_symlinks}
use umsftpd.Vfs.System.{StatResult, FopenResult, FileMode, is_read}
use umsftpd.Vfs.Handles.{HandlePtr, OpenedFile, chdir, open_file}
use umsftpd.Vfs.Handles.Laws.{HasFile, OpensFile, open_file_jailed}
use umsftpd.Vfs.Node.{VfsError, Handle}
use umsftpd.Vfs.Insert.Step.{Granted}
use umsftpd.Vfs.Keep.{chdir-IsVfs}
use umsftpd.Vfs.Freeze.{SortsUp}
use umsftpd.Vfs.Unique.{IfDone}
use umsftpd.Vfs.Reach.Distinct.{SameConfig, chdir-config}
use umsftpd.Shell.Program.{set_up}
use umsftpd.Shell.Program.Guarded.{flags_guarded}
use umsftpd.Shell.Program.Links.{links_refused}
use umsftpd.Vfs.Table.{entries}
use umsftpd.Vfs.Node.Fits.{InJail, LinksChecked}
use umsftpd.Vfs.Node.Mapped.{IsVfs}
use umsftpd.Shell.Program.Table.{IsProgram, incoming, set_up_lem}
use umsftpd.Shell.Program.Mapped.{jail_incoming}

moved-IsProgram :
    (vfs vfs' : Vfs) → IsProgram vfs → IsVfs vfs' → SameConfig vfs vfs' → IsProgram vfs'
moved-IsProgram vfs vfs' p v e = record {
  well_formed = v;
  frozen = ap (λ c. c.frozen) e ∙ p.frozen;
  no_flags = ap (λ c. c.base_flags) e ∙ p.no_flags;
  mounted = λ es k. ap (λ c. entries c.inodes es) e ∙ p.mounted es k;
}

and_left : (b c : Bool) → c ≡ true → (b && c) ≡ false → b ≡ false
and_left b true e h = h_of b h
  where
    h_of : (b : Bool) → (b && true) ≡ false → b ≡ false
    h_of true h = h
    h_of false h = h
and_left b false e h = cc

abbrev pub IfLive : (Handle → Type 0) → OpenedFile → Type 0
IfLive P (vfs, result, HandlePtr.unset) = Unit
IfLive P (vfs, result, HandlePtr.freed) = Unit
IfLive P (vfs, result, HandlePtr.live h) = P h

-- `lstat` can examine each part of a path, up to the first that does not exist, and shows no link.
abbrev pub NoLinks : (Bytes → LstatResult) → Bytes → Type 0
NoLinks lstat path =
    ((path_contains_symlink lstat path).critical_error ≡ false)
    × ((path_contains_symlink lstat path).contains_symlink ≡ false)

refused :
    (lstat : Bytes → LstatResult) (flags : ℕ) (path : Bytes)
    → has_flag flags flag_allow_symlinks ≡ false
    → LinksChecked lstat flags (some path)
    → NoLinks lstat path
refused lstat flags path e (inl allowed) = absurd (let both : true ≡ false = sym allowed ∙ e in cc)
refused lstat flags path e (inr checked) = checked

abbrev pub Incoming :
    (Bytes → LstatResult) → (Option Bytes → Bytes → FopenResult) → FileMode → Handle → Type 0
Incoming lstat fopen mode h =
    (rest : List Bytes) × All IsClean rest
    × (h.virtual_path ≡ show (incoming ∷ rest))
    × HasFile fopen (some (codes "/tmp/incoming" ++ render rest)) mode h
    × NoLinks lstat (codes "/tmp/incoming" ++ render rest)

opened-Incoming :
    (lstat : Bytes → LstatResult) (fopen : Option Bytes → Bytes → FopenResult) (vfs : Vfs)
    (mode : FileMode) (o : OpenedFile)
    → IsProgram vfs
    → is_read mode ≡ false
    → OpensFile lstat fopen vfs mode o
    → IfLive (Incoming lstat fopen mode) o
opened-Incoming lstat fopen vfs mode (vfs', result, HandlePtr.unset) p w o = tt
opened-Incoming lstat fopen vfs mode (vfs', result, HandlePtr.freed) p w o = tt
opened-Incoming lstat fopen vfs mode (vfs', result, HandlePtr.live h) p w
      ((ok, same, (cs, clean, path, allowed, jail, links)), may, file) =
    let writes : has_flag h.flags flag_read_only ≡ false =
      and_left (has_flag h.flags flag_read_only) (not (is_read mode)) (ap not w) may in
    let (rest, e) =
      flags_guarded vfs p cs (IsClean→IsName cs clean)
        (ap (λ f. has_flag f flag_read_only) (sym allowed.0) ∙ writes) in
    let clean' : All IsClean (incoming ∷ rest) = subst (All IsClean) e clean in
    let mapped : h.mapped_path ≡ some (codes "/tmp/incoming" ++ render rest) =
      jail_incoming vfs p rest h.mapped_path (IsClean→IsName (incoming ∷ rest) clean')
        (subst (λ qs. InJail vfs qs h.mapped_path) e jail) in
    (
      rest,
      clean'.1,
      path ∙ ap show e,
      subst (λ m. HasFile fopen m mode h) mapped file,
      refused lstat h.flags (codes "/tmp/incoming" ++ render rest)
          (ap (λ f. has_flag f flag_allow_symlinks) allowed.0
            ∙ links_refused vfs p cs (IsClean→IsName cs clean))
          (subst (LinksChecked lstat h.flags) mapped links),
    )

-- In the file system that the program sets up, with the working directory changed to anything, a file that
-- is opened for writing or appending lies in "/incoming", whatever path is given and whatever the operating
-- system answers: `fopen` opens it, in that mode, at the path of the host below "/tmp/incoming" that its
-- names spell; and `lstat` shows no symbolic link on that path. Memory is granted to the set-up, and
-- `qsort` is as documented.
pub open_file-Incoming :
    (mem : Memory) (qsort : List Inode → List Inode) (vfs vfs' : Vfs) (later : Memory)
    (lstat : Bytes → LstatResult) (os_stat : Option Bytes → StatResult)
    (fopen : Option Bytes → Bytes → FopenResult) (directory path : Option Bytes) (code : VfsError)
    (mode : FileMode)
    → Granted mem
    → SortsUp qsort
    → set_up mem qsort ≡ done vfs
    → chdir later lstat os_stat vfs directory ≡ done (vfs', code)
    → is_read mode ≡ false
    → (o : OpenedFile) × (open_file later lstat os_stat fopen vfs' path mode ≡ done o)
      × IfLive (Incoming lstat fopen mode) o
open_file-Incoming mem qsort vfs vfs' later lstat os_stat fopen directory path code mode g s e c w =
    let (made, made_by, q) = set_up_lem mem qsort g s in
    let p : IsProgram vfs = subst (IfDone IsProgram) (sym made_by ∙ e) q in
    let (moved, code', c', v) = chdir-IsVfs later lstat os_stat vfs directory p.well_formed in
    let v' : IsVfs vfs' = subst (IfDone (λ (r : Vfs × VfsError). IsVfs r.0)) (sym c' ∙ c) v in
    let same : SameConfig vfs vfs' =
      subst (IfDone (λ (r : Vfs × VfsError). SameConfig vfs r.0)) c
        (chdir-config later lstat os_stat vfs directory p.well_formed) in
    let (o, run, jailed) = open_file_jailed later lstat os_stat fopen vfs' path mode v' in
    (o, run, opened-Incoming lstat fopen vfs' mode o (moved-IsProgram vfs vfs' p v' same) w jailed)
