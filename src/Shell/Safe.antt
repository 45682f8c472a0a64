-- ===== src/Shell/Safe.antt =====
-- The commands of the shell of vfsdebug.c on a well-formed file system.
use umsftpd.Prelude.{
  ℕ, suc, ◌+◌, ◌≤◌, ◌≡◌, refl, false, List, [], ◌∷◌, ◌++◌, some, Bytes, codes, length, ◌==◌,
  if◌then◌else◌, Outcome, done, ◌>>=◌, arith,
}
use umsftpd.Vfs.{Vfs}
use umsftpd.Vfs.System.{is_ok, with_handle, FileMode}
use umsftpd.Vfs.Node.{VfsError, Handle}
use umsftpd.Vfs.Node.Mapped.{IsVfs}
use umsftpd.Vfs.Keep.{chdir-IsVfs}
use umsftpd.Vfs.Handles.{OpenedFile, opendir, open_file, usable, transfer, chdir}
use umsftpd.Vfs.Stat.{Dirent}
use umsftpd.Shell.Print.{err, error_str}
use umsftpd.Shell.Handlers.{
  open_error, report, Os, argument, turns, ls_loop, keep_list, shell_ls, shell_cd, cat_loop,
  shell_cat, shell_put, Reply,
}
use umsftpd.Shell.Laws.{HasList, ls_loop-HasList}
use umsftpd.Shell.Files.{
  Safe, Safe-bind, keep_list-IsVfs, with_handle-Safe, opendir-Leaves, IsOpenFile, open_file-Leaves,
  transfer-done, cat_loop-done,
}

pub shell_ls-Safe :
    (os : Os) (stack : Dirent) (vfs : Vfs) (arguments : List Bytes)
    → IsVfs vfs
    → Safe (shell_ls os stack vfs arguments)
unfolding shell_ls
shell_ls-Safe os stack vfs arguments v = given arguments
  where
    not_opened : Bytes → VfsError → Reply
    not_opened path result =
        (false, err (codes "diropen " ++ path ++ codes ": " ++ error_str result ++ codes "\n") ∷ [])

    list_path : Bytes → Outcome (Vfs × Reply)
    list_path path = do
      opened ← opendir os.memory os.lstat os.os_opendir vfs (some path)
      with_handle opened (λ vfs' result. (vfs', not_opened path result))
          (λ vfs' handle. (do
            (handle', reply) ← ls_loop os path (turns handle os.items) handle os.items stack
            done (keep_list vfs' handle'.inode, reply)))

    listed : (path : Bytes) → Safe (list_path path)
    listed path =
        let (opened, e, f) = opendir-Leaves os vfs path v in
        let used = λ (vfs' : Vfs) (handle : Handle).
          ls_loop os path (turns handle os.items) handle os.items stack
          >>= (λ (handle', reply). done (keep_list vfs' handle'.inode, reply)) in
        Safe-bind (opendir os.memory os.lstat os.os_opendir vfs (some path))
          (λ opened. with_handle opened (λ vfs' result. (vfs', not_opened path result)) used) opened
          e
          (with_handle-Safe vfs (λ h. HasList h.inode) opened (λ _ result. not_opened path result)
            used v f
            (λ h l.
              let (r, q, k) = ls_loop-HasList os path h os.items stack l in
              Safe-bind (ls_loop os path (turns h os.items) h os.items stack)
                (λ (handle', reply). done (keep_list vfs handle'.inode, reply)) r q
                ((keep_list vfs r.0.inode, r.1), refl, keep_list-IsVfs vfs r.0.inode k v)))

    more : (n : ℕ) → (suc n == 0) ≡ false
    more n = ground arith

    given :
        (arguments : List Bytes)
        → Safe (
            (if length arguments == 0 then done (codes ".") else argument arguments 0)
            >>= list_path)
    given [] = listed (codes ".")
    given (path ∷ rest) = rw (more (length rest)) (listed path)

-- What a handler returns that cannot open its file.
abbrev failed : Vfs → VfsError → Reply
failed vfs result = (open_error vfs result).1

-- A command on its first argument.
pub first_argument-Safe :
    {A : Type 0} (arguments : List Bytes) (k : Bytes → Outcome (Vfs × A))
    → 1 ≤ length arguments
    → ((path : Bytes) → Safe (k path))
    → Safe (argument arguments 0 >>= k)
first_argument-Safe [] k h safe = absurd (omega arith)
first_argument-Safe (path ∷ rest) k h safe = safe path

pub shell_cd-Safe :
    (os : Os) (vfs : Vfs) (arguments : List Bytes)
    → 1 ≤ length arguments
    → IsVfs vfs
    → Safe (shell_cd os vfs arguments)
unfolding shell_cd
shell_cd-Safe os vfs arguments h v =
    first_argument-Safe arguments
      (λ path.
        chdir os.memory os.lstat os.os_stat vfs (some path)
        >>= (λ (vfs', result). done (vfs', (is_ok result, report result))))
      h
      (λ path.
        let (vfs', code, e, w) = chdir-IsVfs os.memory os.lstat os.os_stat vfs (some path) v in
        Safe-bind (chdir os.memory os.lstat os.os_stat vfs (some path))
          (λ (vfs', result). done (vfs', (is_ok result, report result))) (vfs', code) e
          ((vfs', (is_ok code, report code)), refl, w))

pub shell_cat-Safe :
    (os : Os) (vfs : Vfs) (arguments : List Bytes)
    → 1 ≤ length arguments
    → IsVfs vfs
    → Safe (shell_cat os vfs arguments)
unfolding shell_cat
shell_cat-Safe os vfs arguments h v =
    let used = λ (vfs' : Vfs) (handle : Handle).
      cat_loop os handle os.freads >>= (λ reply. done (vfs', reply)) in
    let opening = λ (path : Bytes).
      open_file os.memory os.lstat os.os_stat os.fopen vfs (some path) FileMode.read in
    let rest = λ (opened : OpenedFile). with_handle (usable opened) open_error used in
    first_argument-Safe arguments (λ path. opening path >>= rest) h
      (λ path.
        let (opened, e, f) = open_file-Leaves os vfs path FileMode.read v in
        Safe-bind (opening path) rest opened e (
          with_handle-Safe vfs IsOpenFile (usable opened) failed used v f (λ handle file.
            let (b, q) = cat_loop-done os handle os.freads file in
            Safe-bind (cat_loop os handle os.freads) (λ reply. done (vfs, reply)) b q
              ((vfs, b), refl, v))))

pub shell_put-Safe :
    (os : Os) (vfs : Vfs) (arguments : List Bytes)
    → 1 ≤ length arguments
    → IsVfs vfs
    → Safe (shell_put os vfs arguments)
unfolding shell_put
shell_put-Safe os vfs arguments h v =
    let size = length (codes "This is now in a file.") + 1 in
    let used = λ (vfs' : Vfs) (handle : Handle).
      transfer os.fwrite handle size >>= (λ (result, len). done (vfs', (is_ok result, []))) in
    let opening = λ (path : Bytes).
      open_file os.memory os.lstat os.os_stat os.fopen vfs (some path) FileMode.write in
    let rest = λ (opened : OpenedFile). with_handle (usable opened) open_error used in
    first_argument-Safe arguments (λ path. opening path >>= rest) h
      (λ path.
        let (opened, e, f) = open_file-Leaves os vfs path FileMode.write v in
        Safe-bind (opening path) rest opened e (
          with_handle-Safe vfs IsOpenFile (usable opened) failed used v f (λ handle file.
            let (r, q) = transfer-done os.fwrite handle size file in
            Safe-bind (transfer os.fwrite handle size)
              (λ (result, len). done (vfs, (is_ok result, []))) r q
              ((vfs, (is_ok r.0, [])), refl, v))))
