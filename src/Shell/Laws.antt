-- ===== src/Shell/Laws.antt =====
-- Listing a directory in the shell of vfsdebug.c: it ends, and the list of an inode stays a list.
use mathlib.Core.Path.{subst}
use umsftpd.Prelude.{
  ℕ, zero, suc, ◌+◌, ◌-◌, ◌≤◌, ◌&&◌, Bool, ◌⊎◌, inl, inr, arith, ◌≡◌, refl, sym, ap, ◌∙◌, true,
  false, not, ◌||◌, List, [], ◌∷◌, ◌++◌, Option, none, some, Bytes, codes, length, ltb, str_eq,
  get_or, if◌then◌else◌, if-cases, Outcome, done, undefined, ◌>>=◌,
}
use umsftpd.StringList.{StringList}
use umsftpd.StringList.Search.{contains_keeps}
use umsftpd.Vfs.{Inode}
use umsftpd.Vfs.System.{is_ok, StatResult}
use umsftpd.Vfs.Node.{VfsError, HandleType, Handle}
use umsftpd.Vfs.Stat.{Dirent, stat_virtual_directory}
use umsftpd.Vfs.Readdir.{
  DirentType, DirItem, failed, entry, Found, overlaid, examine, is_supported, go_on, read_stream,
  with_list, finish, readdir_stream, readdir_dir, readdir,
}
use umsftpd.Shell.Handlers.{Os, Reply, then_print, listed, turns, ls_loop}
use umsftpd.Shell.Print.{Printed, out, err, error_str, print_dirent}

-- Where there is an inode, it has a list.
abbrev pub HasList : Option Inode → Type 0
HasList none = Unit
HasList (some inode) = (list : StringList) × (inode.virtual_subdirs ≡ some list)

-- Where there is an inode, it has a list of a length.
abbrev HasCount : ℕ → Option Inode → Type 0
HasCount n none = Unit
HasCount n (some inode) =
    (list : StringList) × (inode.virtual_subdirs ≡ some list) × (length list.strings ≡ n)

abbrev Counts : ℕ → Option StringList → Type 0
Counts n none = ⊥
Counts n (some list) = length list.strings ≡ n

-- The directories of the inode that are not read yet.
abbrev left : ℕ → HandleType → ℕ
left n (HandleType.file_handle f) = 0
left n (HandleType.dir_handle dir index) = n - index

-- An entry that is found has been taken off the stream.
abbrev Shorter : ℕ → List DirItem × Option StringList × Found → Type 0
Shorter m (items, overlay, Found.read_error) = Unit
Shorter m (items, overlay, Found.read_end) = Unit
Shorter m (items, overlay, Found.read_entry d) = suc (length items) ≤ m

suc-Shorter :
    (m : ℕ) (r : List DirItem × Option StringList × Found) → Shorter m r → Shorter (suc m) r
suc-Shorter m (items, overlay, Found.read_error) h = tt
suc-Shorter m (items, overlay, Found.read_end) h = tt
suc-Shorter m (items, overlay, Found.read_entry d) h = omega arith

-- The listing is at its end, or less than before is to be read.
abbrev Goes : ℕ → ℕ → Handle × List DirItem × VfsError × Dirent → Type 0
Goes n m (handle, items, code, d) =
    ((is_ok code && not d.eof) ≡ false) ⊎ (suc (left n handle.type + length items) ≤ m)

module _ (fstatat : Bytes → StatResult) (n : ℕ) where
  examine-Counts :
      (flags : ℕ) (name : Bytes) (type : DirentType) (list : StringList)
      → length list.strings ≡ n
      → Counts n (examine fstatat flags name type (some list)).0
  unfolding examine overlaid
  examine-Counts flags name type list h =
      let P = λ (r : Option StringList × Option Dirent). Counts n r.0 in
      if-cases P (str_eq name (codes ".") || str_eq name (codes "..")) (λ _. h)
        (λ _. if-cases P (not (is_supported type)) (λ _. h) (λ _. (contains_keeps list name).1 ∙ h))

  read_stream-Counts :
      (flags : ℕ) (items : List DirItem) (overlay : Option StringList)
      → Counts n overlay
      → Counts n (read_stream fstatat flags items overlay).1
  unfolding read_stream
  read_stream-Counts flags [] overlay h = h
  read_stream-Counts flags (failed ∷ items) overlay h = h
  read_stream-Counts flags (entry name type ∷ items) none h = absurd h
  read_stream-Counts flags (entry name type ∷ items) (some list) h =
      goes (examine fstatat flags name type (some list)) (examine-Counts flags name type list h)
        (read_stream-Counts flags items)
    where
      goes :
          (r : Option StringList × Option Dirent)
          → Counts n r.0
          → ((o : Option StringList) → Counts n o → Counts n (read_stream fstatat flags items o).1)
          → Counts n (go_on items (λ o. read_stream fstatat flags items o) r).1
      goes (overlay, none) h more = more overlay h
      goes (overlay, some d) h more = h

  read_stream-Shorter :
      (flags : ℕ) (items : List DirItem) (overlay : Option StringList)
      → Shorter (length items) (read_stream fstatat flags items overlay)
  unfolding read_stream
  read_stream-Shorter flags [] overlay = tt
  read_stream-Shorter flags (failed ∷ items) overlay = tt
  read_stream-Shorter flags (entry name type ∷ items) overlay =
      goes (examine fstatat flags name type overlay) (read_stream-Shorter flags items)
    where
      goes :
          (r : Option StringList × Option Dirent)
          → ((o : Option StringList) → Shorter (length items) (read_stream fstatat flags items o))
          → Shorter (suc (length items)) (go_on items (λ o. read_stream fstatat flags items o) r)
      goes (overlay, none) more =
          suc-Shorter (length items) (read_stream fstatat flags items overlay) (more overlay)
      goes (overlay, some d) more = omega arith

  with_list-HasCount :
      (inode : Option Inode) (overlay : Option StringList)
      → Counts n overlay
      → HasCount n (with_list inode overlay)
  with_list-HasCount none overlay h = tt
  with_list-HasCount (some inode) none h = absurd h
  with_list-HasCount (some inode) (some list) h = (list, refl, h)

  -- What a call of `vfs_readdir` leaves.
  abbrev Progress : ℕ → Handle × List DirItem × VfsError × Dirent → Type 0
  Progress m r = HasCount n r.0.inode × Goes n m r

  -- A call of `vfs_readdir` that returns, keeps an inode's list, and makes progress.
  abbrev Reads : ℕ → Outcome (Handle × List DirItem × VfsError × Dirent) → Type 0
  Reads m o = (r : Handle × List DirItem × VfsError × Dirent) × (o ≡ done r) × Progress m r

  finish-Progress :
      (handle : Handle) (m : ℕ) (d : Dirent) (r : List DirItem × Option StringList × Found)
      → Shorter m r
      → HasCount n (with_list handle.inode r.1)
      → Progress (left n handle.type + m) (finish handle d r)
  unfolding finish
  finish-Progress handle m d (items, overlay, Found.read_error) s h = (h, inl refl)
  finish-Progress handle m d (items, overlay, Found.read_end) s h = (h, inl refl)
  finish-Progress handle m d (items, overlay, Found.read_entry e) s h = (h, inr (omega arith))

  readdir_stream-Progress :
      (handle : Handle) (dir : Option ℕ) (items : List DirItem) (overlay : Option StringList)
      (d : Dirent)
      → HasCount n handle.inode
      → HasCount n (with_list handle.inode (read_stream fstatat handle.flags items overlay).1)
      → Progress
          (left n handle.type + length items)
          (readdir_stream fstatat handle dir items overlay d)
  unfolding readdir_stream
  readdir_stream-Progress handle none items overlay d h k = (h, inl refl)
  readdir_stream-Progress handle (some dir) items overlay d h k =
      finish-Progress handle (length items) d (read_stream fstatat handle.flags items overlay)
        (read_stream-Shorter handle.flags items overlay) k

  -- The parts of `vfs_readdir` for a directory.
  abbrev Read : Type 0
  Read = Handle × List DirItem × VfsError × Dirent

  abbrev shown : Handle → Option ℕ → ℕ → List DirItem → StringList → Read
  shown handle dir index items list = (
    record handle { type = HandleType.dir_handle dir (index + 1) },
    items,
    VfsError.ok,
    stat_virtual_directory (get_or list.strings index []) handle.flags,
  )

  abbrev listing : Handle → Option ℕ → ℕ → List DirItem → Dirent → Option StringList → Outcome Read
  listing handle dir index items d l = elim l [
    | none ↦ undefined
    | some list ↦
        (if ltb index (length list.strings)
          then done (shown handle dir index items list)
          else done (readdir_stream fstatat handle dir items (some list) d))
  ]

  abbrev found : Handle → Option ℕ → ℕ → List DirItem → Dirent → Option Inode → Outcome Read
  found handle dir index items d i = elim i [
    | none ↦ elim dir [
      | none ↦ done (handle, items, VfsError.internal_error, d)
      | some stream ↦ done (readdir_stream fstatat handle (some stream) items none d)
    ]
    | some inode ↦ listing handle dir index items d inode.virtual_subdirs
  ]

  readdir_dir-Reads :
      (handle : Handle) (dir : Option ℕ) (index : ℕ) (items : List DirItem) (d : Dirent)
      (inode : Option Inode)
      → handle.type ≡ HandleType.dir_handle dir index
      → handle.inode ≡ inode
      → HasCount n inode
      → Reads (left n handle.type + length items) (readdir_dir fstatat handle dir index items d)
  unfolding readdir_dir
  readdir_dir-Reads handle none index items d none t e h = (
    (handle, items, VfsError.internal_error, d),
    rw e refl,
    (subst (HasCount n) (sym e) tt, inl refl),
  )
  readdir_dir-Reads handle (some dir) index items d none t e h = (
    readdir_stream fstatat handle (some dir) items none d,
    rw e refl,
    readdir_stream-Progress handle (some dir) items none d (subst (HasCount n) (sym e) tt) (
        subst (λ i. HasCount n (with_list i (read_stream fstatat handle.flags items none).1))
          (sym e) tt),
  )
  readdir_dir-Reads handle dir index items d (some inode) t e (list, l, len) =
      let kept : HasCount n handle.inode = subst (HasCount n) (sym e) (list, l, len) in
      let m = left n handle.type + length items in
      let run : readdir_dir fstatat handle dir index items d ≡ (
          if ltb index (length list.strings)
          then done (shown handle dir index items list)
          else done (readdir_stream fstatat handle dir items (some list) d)) =
        ap (found handle dir index items d) e ∙ ap (listing handle dir index items d) l in
      subst (Reads m) (sym run) (
        if-cases (Reads m) (ltb index (length list.strings))
          (λ below. (
            shown handle dir index items list,
            refl,
            (kept, inr (one_less handle dir index items list t len below)),
          ))
          (λ _. (
            readdir_stream fstatat handle dir items (some list) d,
            refl,
            readdir_stream-Progress handle dir items (some list) d kept (
                with_list-HasCount handle.inode
                  (read_stream fstatat handle.flags items (some list)).1
                  (read_stream-Counts handle.flags items (some list) len)),
          )))
    where
      below_lt : (a b : ℕ) → ltb a b ≡ true → suc a ≤ b
      below_lt a b e = ground arith

      one_less :
          (handle : Handle) (dir : Option ℕ) (index : ℕ) (items : List DirItem) (list : StringList)
          → handle.type ≡ HandleType.dir_handle dir index
          → length list.strings ≡ n
          → ltb index (length list.strings) ≡ true
          → suc (n - (index + 1) + length items) ≤ left n handle.type + length items
      one_less handle dir index items list t len below =
          let some_left : suc index ≤ n = rw len at (below_lt index (length list.strings) below) in
          subst (λ x. suc (n - (index + 1) + length items) ≤ left n x + length items) (sym t)
            (omega arith)

  readdir-Reads :
      (handle : Handle) (type : HandleType) (items : List DirItem) (d : Dirent)
      → handle.type ≡ type
      → HasCount n handle.inode
      → Reads (left n handle.type + length items) (readdir fstatat handle items d)
  unfolding readdir
  readdir-Reads handle (HandleType.file_handle f) items d e h =
      ((handle, items, VfsError.internal_error, d), rw e refl, (h, inl refl))
  readdir-Reads handle (HandleType.dir_handle dir index) items d e h =
      let run : readdir fstatat handle items d ≡ readdir_dir fstatat handle dir index items d =
        rw e refl in
      subst (Reads (left n handle.type + length items)) (sym run)
        (readdir_dir-Reads handle dir index items d handle.inode e refl h)

abbrev pub listing_error : Bytes → VfsError → List Printed
listing_error path result =
    err (codes "vfs_readdir " ++ path ++ codes ": " ++ error_str result ++ codes "\n") ∷ []

-- One turn of the listing, with the rest of it.
abbrev pub turn :
    Os
    → Bytes
    → Outcome (Handle × Reply)
    → Handle × List DirItem × VfsError × Dirent
    → Outcome (Handle × Reply)
turn os path rest (handle', items', result, dirent') =
    if not (is_ok result)
    then done (handle', (false, listing_error path result))
    else if dirent'.eof
    then done (handle', (true, []))
    else rest >>= (λ r. done (then_print (out (print_dirent os.time_text dirent') ∷ []) r))

going : (a b : Bool) → not a ≡ false → b ≡ false → (a && not b) ≡ false → ⊥
going true false p q r = let no : true ≡ false = r in cc
going true true p q r = let no : true ≡ false = q in cc
going false b p q r = let no : true ≡ false = p in cc

HasCount-HasList : (n : ℕ) (inode : Option Inode) → HasCount n inode → HasList inode
HasCount-HasList n none h = tt
HasCount-HasList n (some inode) (list, l, len) = (list, l)

-- The listing ends within the calls, and the inode still has a list.
ls_loop_ends :
    (os : Os) (path : Bytes) (n calls : ℕ) (handle : Handle) (items : List DirItem) (d : Dirent)
    → HasCount n handle.inode
    → suc (left n handle.type + length items) ≤ calls
    → (r : Handle × Reply) × (ls_loop os path calls handle items d ≡ done r) × HasList r.0.inode
unfolding ls_loop
ls_loop_ends os path n zero handle items d h enough = absurd (omega arith)
ls_loop_ends os path n (suc calls) handle items d h enough =
    let (r, e, (k, g)) = readdir-Reads os.fstatat n handle handle.type items d refl h in
    let (last, q, m) =
      ends r (ls_loop os path calls r.0 r.1 r.3) k g
        (λ less. ls_loop_ends os path n calls r.0 r.1 r.3 k (omega arith)) in
    (
      last,
      ap
            (λ (o : Outcome (Handle × List DirItem × VfsError × Dirent)).
              o >>= (λ (a, b, c, d'). turn os path (ls_loop os path calls a b d') (a, b, c, d')))
            e
          ∙ q,
      m,
    )
  where
    Ends : Outcome (Handle × Reply) → Type 0
    Ends o = (r : Handle × Reply) × (o ≡ done r) × HasList r.0.inode

    ends :
        (r : Handle × List DirItem × VfsError × Dirent) (o : Outcome (Handle × Reply))
        → HasCount n r.0.inode
        → Goes n (left n handle.type + length items) r
        → (suc (left n r.0.type + length r.1) ≤ left n handle.type + length items → Ends o)
        → Ends (turn os path o r)
    ends r o k g more =
        let line = out (print_dirent os.time_text r.3) ∷ [] in
        let l = HasCount-HasList n r.0.inode k in
        if-cases Ends (not (is_ok r.2)) (λ _. ((r.0, (false, listing_error path r.2)), refl, l))
          (λ a.
            if-cases Ends r.3.eof (λ _. ((r.0, (true, [])), refl, l))
              (λ b. elim g [
                | inl stop ↦ absurd (going (is_ok r.2) r.3.eof a b stop)
                | inr less ↦
                    let (rest, f, kept) = more less in
                    (then_print line rest, ap (λ x. x >>= (λ r. done (then_print line r))) f, kept)
              ]))

left_bound : (n : ℕ) (type : HandleType) → left n type ≤ n
left_bound n (HandleType.file_handle f) = omega arith
left_bound n (HandleType.dir_handle dir index) = omega arith

HasList-HasCount : (inode : Option Inode) → HasList inode → HasCount (listed inode) inode
HasList-HasCount none h = tt
HasList-HasCount (some inode) (list, l) = (
  list,
  l,
  sym (ap (λ (o : Option StringList). elim o [ none ↦ 0 | some x ↦ length x.strings ]) l),
)

-- The listing of `vfs_shell_ls` ends, and the inode still has a list.
pub ls_loop-HasList :
    (os : Os) (path : Bytes) (handle : Handle) (items : List DirItem) (d : Dirent)
    → HasList handle.inode
    → (r : Handle × Reply) × (ls_loop os path (turns handle items) handle items d ≡ done r)
      × HasList r.0.inode
ls_loop-HasList os path handle items d h =
    ls_loop_ends os path (listed handle.inode) (turns handle items) handle items d
      (HasList-HasCount handle.inode h)
      (omega (arith, left_bound (listed handle.inode) handle.type))
