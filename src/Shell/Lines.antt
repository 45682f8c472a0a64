-- ===== src/Shell/Lines.antt =====
-- The lines that the command "ls" of vfsdebug.c prints.
use mathlib.Core.List.{map}
use umsftpd.Prelude.{
  ℕ, zero, suc, ◌+◌, ◌≡◌, refl, ap, ◌∙◌, Bool, true, false, not, ◌&&◌, List, [], ◌∷◌, ◌++◌, Bytes,
  length, if◌then◌else◌, Outcome, done, undefined, ◌>>=◌,
}
use umsftpd.StringList.{StringList}
use umsftpd.Vfs.{Inode}
use umsftpd.Vfs.System.{is_ok}
use umsftpd.Vfs.Node.{VfsError, Handle}
use umsftpd.Vfs.Stat.{Dirent, stat_virtual_directory}
use umsftpd.Vfs.Readdir.{DirItem, readdir}
use umsftpd.Vfs.Readdir.Listing.{Hides, visible}
use umsftpd.Vfs.Readdir.Whole.{collect, list_all, dir_of, readdir_whole}
use umsftpd.Shell.Print.{Printed, out, err, print_dirent}
use umsftpd.Shell.Handlers.{Os, Reply, then_print, ls_loop}
use umsftpd.Shell.Laws.{turn, listing_error}

-- What stands on `stdout`.
abbrev pub stdout_texts : List Printed → List Bytes
stdout_texts [] = []
stdout_texts (out text ∷ printed) = text ∷ stdout_texts printed
stdout_texts (err text ∷ printed) = stdout_texts printed

abbrev pub map_outcome : {A B : Type 0} → (A → B) → Outcome A → Outcome B
map_outcome f (done a) = done (f a)
map_outcome f undefined = undefined

module _ (os : Os) (path : Bytes) where
  abbrev shown : Outcome (Handle × Reply) → Outcome (List Bytes)
  shown = map_outcome (λ r. stdout_texts r.1.1)

  abbrev lines : Outcome (List Dirent) → Outcome (List Bytes)
  lines = map_outcome (map (print_dirent os.time_text))

  shown_rest :
      (e : Dirent) (o : Outcome (Handle × Reply)) (p : Outcome (List Dirent))
      → shown o ≡ lines p
      → shown (o >>= (λ r. done (then_print (out (print_dirent os.time_text e) ∷ []) r)))
        ≡ lines (p >>= (λ ds. done (e ∷ ds)))
  shown_rest e (done r) (done ds) h =
      ap (λ (o : Outcome (List Bytes)). o >>= (λ ts. done (print_dirent os.time_text e ∷ ts))) h
  shown_rest e undefined undefined h = refl
  shown_rest e (done r) undefined h = cc
  shown_rest e undefined (done ds) h = cc

  shown-turn :
      (r : Handle × List DirItem × VfsError × Dirent) (o : Outcome (Handle × Reply))
      (rest : Handle → List DirItem → Dirent → Outcome (List Dirent))
      → shown o ≡ lines (rest r.0 r.1 r.3)
      → shown (turn os path o r) ≡ lines (collect rest r)
  shown-turn (handle, items, code, e) o rest h =
      by_end (is_ok code) e.eof
        (o >>= (λ r. done (then_print (out (print_dirent os.time_text e) ∷ []) r)))
        (rest handle items e >>= (λ ds. done (e ∷ ds))) (shown_rest e o (rest handle items e) h)
    where
      by_end :
          (ok eof : Bool) (next : Outcome (Handle × Reply)) (later : Outcome (List Dirent))
          → shown next ≡ lines later
          → shown (
              if not ok
              then done (handle, (false, listing_error path code))
              else if eof
              then done (handle, (true, []))
              else next)
            ≡ lines (if ok && not eof then later else done [])
      by_end true true next later k = refl
      by_end true false next later k = k
      by_end false eof next later k = refl

  -- The command prints the entries that a client would collect.
  shown-ls_loop :
      (calls : ℕ) (handle : Handle) (items : List DirItem) (d : Dirent)
      → shown (ls_loop os path calls handle items d)
        ≡ lines (list_all os.fstatat calls handle items d)
  unfolding ls_loop list_all
  shown-ls_loop zero handle items d = refl
  shown-ls_loop (suc calls) handle items d =
      by_call (readdir os.fstatat handle items d) (shown-ls_loop calls)
    where
      by_call :
          (o : Outcome (Handle × List DirItem × VfsError × Dirent))
          → ((h : Handle) (is : List DirItem) (e : Dirent)
              → shown (ls_loop os path calls h is e) ≡ lines (list_all os.fstatat calls h is e))
          → shown (o >>= (λ (a, b, c, e). turn os path (ls_loop os path calls a b e) (a, b, c, e)))
            ≡ lines (o >>= collect (λ h is e. list_all os.fstatat calls h is e))
      by_call undefined ih = refl
      by_call (done r) ih =
          shown-turn r (ls_loop os path calls r.0 r.1 r.3)
            (λ h is e. list_all os.fstatat calls h is e) (ih r.0 r.1 r.3)

  -- For a directory of an inode that is open at its start, the command "ls" prints one line for each entry
  -- that a client is to see: those for the virtual directories of the inode, in their order, then those
  -- for the entries of the stream that are shown, up to an error. An entry of the stream whose name is a
  -- virtual directory's has no line. One call more than there are entries is enough. `hidden` holds of the
  -- names in the list, and the list is sorted if it is marked so.
  pub ls_loop-lines :
      (handle : Handle) (inode : Inode) (dir : ℕ) (hidden : Bytes → Bool) (list : StringList)
      (items : List DirItem) (stack : Dirent)
      → Hides hidden list
      → map_outcome
          (λ r. stdout_texts r.1.1)
          (ls_loop os path
            (length list.strings + suc (length (visible os.fstatat handle.flags hidden items)))
            (dir_of handle inode list dir 0)
            items
            stack)
        ≡ done (
            map (print_dirent os.time_text) (
              map (λ name. stat_virtual_directory name handle.flags) list.strings
              ++ visible os.fstatat handle.flags hidden items))
  ls_loop-lines handle inode dir hidden list items stack h =
      shown-ls_loop
        (length list.strings + suc (length (visible os.fstatat handle.flags hidden items)))
        (dir_of handle inode list dir 0) items stack
      ∙ ap lines (readdir_whole os.fstatat handle inode dir hidden list items stack h)
