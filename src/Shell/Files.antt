-- ===== src/Shell/Files.antt =====
-- Opening, reading and writing for the shell of vfsdebug.c, on a well-formed file system.
use mathlib.Core.List.{map}
use umsftpd.Prelude.{
  ℕ, ◌≡◌, ◌≢◌, refl, sym, ap, ◌∙◌, false, not, List, [], ◌∷◌, Option, none, some, Bytes, codes,
  take, All, ◌==◌, if◌then◌else◌, if-cases, Outcome, done, ◌>>=◌,
}
use umsftpd.Paths.Names.{IsClean, show}
use umsftpd.Paths.Sanitize.{IsClean→IsName}
use umsftpd.Vfs.{Inode, Vfs, set_error, find_inode}
use umsftpd.Vfs.System.{is_ok, with_handle, FileMode}
use umsftpd.Vfs.Node.{VfsError, HandleType, Handle, Opened}
use umsftpd.Vfs.Node.Fits.{Fits}
use umsftpd.Vfs.Node.Jail.{open_node_jailed}
use umsftpd.Vfs.Node.Mapped.{IsVfs}
use umsftpd.Vfs.Table.{IsNode, found-IsNode}
use umsftpd.Vfs.Insert.Step.{IsTable}
use umsftpd.Vfs.Keep.{carried, error_only, is_ok-false}
use umsftpd.Vfs.Handles.{Transfer, HandlePtr, OpenedFile, opendir, open_file, usable, transfer}
use umsftpd.Vfs.Handles.Laws.{OpensFile, open_file_jailed}
use umsftpd.Shell.Print.{out, err}
use umsftpd.Shell.Handlers.{Os, keep_list, at_end, cat_loop, Reply}
use umsftpd.Shell.Laws.{HasList}

-- A command that returns and leaves the file system well formed.
abbrev pub Safe : {A : Type 0} → Outcome (Vfs × A) → Type 0
Safe {A = A} o = (r : Vfs × A) × (o ≡ done r) × IsVfs r.0

pub Safe-bind :
    {A B : Type 0} (o : Outcome A) (k : A → Outcome (Vfs × B)) (a : A)
    → o ≡ done a
    → Safe (k a)
    → Safe (o >>= k)
Safe-bind o k a e (r, f, v) = (r, ap (λ x. x >>= k) e ∙ f, v)

pub keep_list-IsVfs :
    (vfs : Vfs) (inode : Option Inode) → HasList inode → IsVfs vfs → IsVfs (keep_list vfs inode)
keep_list-IsVfs vfs none h v = v
keep_list-IsVfs vfs (some inode) (list, listed) v =
    carried vfs (keep_list vfs (some inode)) (kept vfs.inodes v.table) refl v
  where
    relisted :
        (n : Inode) → IsNode n → IsNode (record n { virtual_subdirs = inode.virtual_subdirs })
    relisted n k = record {
      names = k.names;
      named = k.named;
      path = k.path;
      measured = k.measured;
      target_measured = k.target_measured;
      list = list;
      listed = listed;
    }

    kept :
        (ns : List Inode)
        → IsTable ns
        → IsTable (
            map
              (λ (n : Inode).
                if n.id == inode.id
                then record n { virtual_subdirs = inode.virtual_subdirs }
                else n)
              ns)
    kept [] h = tt
    kept (n ∷ ns) h =
        (if-cases IsNode (n.id == inode.id) (λ _. relisted n h.0) (λ _. h.0), kept ns h.1)

-- A handle that `vfs_open_node` gives has an inode with a list, if any.
opened-HasList :
    (vfs : Vfs) (cs : List Bytes) (inode : Option Inode)
    → IsVfs vfs
    → All IsClean cs
    → inode ≡ find_inode vfs (show cs)
    → HasList inode
unfolding find_inode
opened-HasList vfs cs none v clean e = tt
opened-HasList vfs cs (some n) v clean e =
    let node = found-IsNode vfs.inodes cs n v.table (IsClean→IsName cs clean) (sym e) in
    (node.0.list, node.0.listed)

-- What opening leaves: at most another error code, or the same state and a handle with a property.
abbrev Leaves : Vfs → (Handle → Type 0) → Opened → Type 0
Leaves vfs P (vfs', result, none) = (vfs' ≡ set_error vfs vfs'.error_code) × (result ≢ VfsError.ok)
Leaves vfs P (vfs', result, some h) = (result ≡ VfsError.ok) × (vfs' ≡ vfs) × P h

-- A command that uses the handle, if there is one, and fails otherwise.
pub with_handle-Safe :
    {A : Type 0} (vfs : Vfs) (P : Handle → Type 0) (opened : Opened) (failed : Vfs → VfsError → A)
    (k : Vfs → Handle → Outcome (Vfs × A))
    → IsVfs vfs
    → Leaves vfs P opened
    → ((h : Handle) → P h → Safe (k vfs h))
    → Safe (with_handle opened (λ vfs' result. (vfs', failed vfs' result)) k)
with_handle-Safe vfs P (vfs', result, none) failed k v (e, bad) used =
    ((vfs', failed vfs' result), rw (is_ok-false result bad) refl, error_only vfs vfs' e v)
with_handle-Safe vfs P (vfs', result, some h) failed k v (ok, same, p) used =
    let (r, e, w) = used h p in (r, rw ok (ap (λ x. k x h) same ∙ e), w)

pub opendir-Leaves :
    (os : Os) (vfs : Vfs) (path : Bytes)
    → IsVfs vfs
    → (r : Opened) × (opendir os.memory os.lstat os.os_opendir vfs (some path) ≡ done r)
      × Leaves vfs (λ h. HasList h.inode) r
unfolding opendir
opendir-Leaves os vfs path v =
    let (opened, e, f) = open_node_jailed os.memory os.lstat vfs (some path) v in
    let (r, q, g) = behind opened f in
    (
      r,
      ap
            (λ o. o >>= (λ x.
              with_handle x (λ vfs' result. (vfs', result, none))
                (λ vfs' handle. done (
                  vfs',
                  VfsError.ok,
                  some (record handle {
                    type = HandleType.dir_handle (os.os_opendir handle.mapped_path) 0;
                  }),
                ))))
            e
          ∙ q,
      g,
    )
  where
    behind :
        (opened : Opened)
        → Fits os.lstat vfs opened
        → (r : Opened) × (with_handle opened
              (λ vfs' result. (vfs', result, none))
              (λ vfs' handle. done (
                vfs',
                VfsError.ok,
                some (record handle {
                  type = HandleType.dir_handle (os.os_opendir handle.mapped_path) 0;
                }),
              ))
            ≡ done r)
          × Leaves vfs (λ h. HasList h.inode) r
    behind (vfs', result, none) (e, bad) =
        ((vfs', result, none), rw (is_ok-false result bad) refl, (e, bad))
    behind (vfs', result, some h) (ok, same, (cs, clean, path', allowed, jail, links)) = (
      (
        vfs',
        VfsError.ok,
        some (record h { type = HandleType.dir_handle (os.os_opendir h.mapped_path) 0 }),
      ),
      rw ok refl,
      (refl, same, opened-HasList vfs cs h.inode v clean allowed.3),
    )

unfoldable pub IsOpenFile : Handle → Type 0
IsOpenFile h = (file : ℕ) × (h.type ≡ HandleType.file_handle (some file))

pub open_file-Leaves :
    (os : Os) (vfs : Vfs) (path : Bytes) (mode : FileMode)
    → IsVfs vfs
    → (r : OpenedFile) × (open_file os.memory os.lstat os.os_stat os.fopen vfs (some path) mode
        ≡ done r)
      × Leaves vfs IsOpenFile (usable r)
unfolding IsOpenFile
open_file-Leaves os vfs path mode v =
    let (r, e, f) =
      open_file_jailed os.memory os.lstat os.os_stat os.fopen vfs (some path) mode v in
    (r, e, behind r f)
  where
    behind :
        (r : OpenedFile) → OpensFile os.lstat os.fopen vfs mode r → Leaves vfs IsOpenFile (usable r)
    behind (vfs', result, HandlePtr.unset) failed = failed
    behind (vfs', result, HandlePtr.freed) failed = failed
    behind (vfs', result, HandlePtr.live h)
          ((ok, same, _), may, (how, means, (file, opens, type))) =
        (ok, same, (file, type))

pub transfer-done :
    (call : ℕ → ℕ → Transfer) (h : Handle) (len : ℕ)
    → IsOpenFile h
    → (r : VfsError × ℕ) × (transfer call h len ≡ done r)
unfolding transfer IsOpenFile
transfer-done call h len (file, e) =
    let t = call file len in
    ((if not t.errno_set then VfsError.ok else VfsError.io_error, t.transferred), rw e refl)

pub cat_loop-done :
    (os : Os) (h : Handle) (freads : List ((ℕ → ℕ → Transfer) × Bytes))
    → IsOpenFile h
    → (b : Reply) × (cat_loop os h freads ≡ done b)
unfolding cat_loop
cat_loop-done os h [] file =
    let (r, e) = transfer-done at_end h 1024 file in ((is_ok r.0, []), rw e refl)
cat_loop-done os h ((fread, buffer) ∷ freads) file =
    let (r, e) = transfer-done fread h 1024 file in
    let (b, f) = cat_loop-done os h freads file in
    let Ends = λ (o : Outcome Reply). (b : Reply) × (o ≡ done b) in
    let short = not (os.stdout_takes r.1 == r.1) in
    let chunk = out (take r.1 buffer) in
    let cut =
      out (take (os.stdout_takes r.1) buffer) ∷ err (codes "Short write to stdout.\n") ∷ [] in
    let more : Reply → Outcome Reply = λ (success, printed). done (success, chunk ∷ printed) in
    rw e (
      if-cases Ends (r.1 == 0) (λ _. ((is_ok r.0, []), refl))
        (λ _.
          if-cases Ends short (λ _. ((is_ok r.0, cut), refl))
            (λ _.
              if-cases Ends (is_ok r.0) {x = cat_loop os h freads >>= more}
                {y = done (false, chunk ∷ [])} (λ _. ((b.0, chunk ∷ b.1), ap (λ o. o >>= more) f))
                (λ _. ((false, chunk ∷ []), refl)))))
