-- ===== src/Vfs/Readdir/Whole.antt =====
-- Reading a directory to its end with `vfs_readdir` (vfs.c): first the directories of the inode, in
-- their order, then what the stream shows.
use mathlib.Core.List.{map}
use umsftpd.Prelude.{
  ℕ, zero, suc, ◌+◌, ◌<◌, ◌≤◌, ◌≡◌, refl, sym, ap, ◌∙◌, Bool, not, ◌&&◌, List, [], ◌∷◌, ◌++◌,
  Option, some, Bytes, arith, length, length-append, append_assoc, get_or, ltb, if◌then◌else◌,
  if-cases, Outcome, done, undefined, ◌>>=◌,
}
use umsftpd.StringList.{StringList}
use umsftpd.Vfs.{Inode}
use umsftpd.Vfs.System.{StatResult, is_ok}
use umsftpd.Vfs.Node.{VfsError, HandleType, Handle}
use umsftpd.Vfs.Stat.{Dirent, stat_virtual_directory}
use umsftpd.Vfs.Readdir.{
  DirItem, Found, readdir, readdir_dir, readdir_stream, read_stream, finish, with_list,
}
use umsftpd.Vfs.Readdir.Listing.{Hides, visible, Reads, read_stream_lem}

get_or-append :
    (xs : List Bytes) (y : Bytes) (ys : List Bytes) → get_or (xs ++ y ∷ ys) (length xs) [] ≡ y
get_or-append [] y ys = refl
get_or-append (x ∷ xs) y ys = get_or-append xs y ys

-- A client that collects the entries until an error or the end, which must come within the calls.
abbrev pub collect :
    (Handle → List DirItem → Dirent → Outcome (List Dirent))
    → Handle × List DirItem × VfsError × Dirent
    → Outcome (List Dirent)
collect rest (handle, items, code, d) =
    if is_ok code && not d.eof then (rest handle items d >>= (λ ds. done (d ∷ ds))) else done []

unfoldable pub list_all :
    (Bytes → StatResult) → ℕ → Handle → List DirItem → Dirent → Outcome (List Dirent)
list_all fstatat zero handle items d = undefined
list_all fstatat (suc n) handle items d =
    readdir fstatat handle items d >>= collect (λ h is e. list_all fstatat n h is e)

abbrev pub dir_of : Handle → Inode → StringList → ℕ → ℕ → Handle
dir_of handle inode list dir index = record handle {
  type = HandleType.dir_handle (some dir) index;
  inode = some (record inode { virtual_subdirs = some list });
}

module _ (fstatat : Bytes → StatResult) (handle : Handle) (inode : Inode) (dir : ℕ)
    (hidden : Bytes → Bool) where
  abbrev shown_of : List DirItem → List Dirent
  shown_of items = visible fstatat handle.flags hidden items

  -- The rest of the listing behind one call on the stream.
  finish_lem :
      (rest : Handle → List DirItem → Dirent → Outcome (List Dirent)) (list : StringList)
      (index : ℕ) (items : List DirItem) (d : Dirent) (r : List DirItem × Option StringList × Found)
      → Reads fstatat handle.flags hidden (shown_of items) (length list.strings) r
      → ((list' : StringList) (items' : List DirItem) (d' : Dirent)
          → Hides hidden list'
          → length list'.strings ≡ length list.strings
          → suc (length (shown_of items')) ≡ length (shown_of items)
          → rest (dir_of handle inode list' dir index) items' d' ≡ done (shown_of items'))
      → collect rest (finish (dir_of handle inode list dir index) d r) ≡ done (shown_of items)
  unfolding finish
  finish_lem rest list index items d (items', overlay, Found.read_error) (list', o, h, len, e) ih =
      ap done (sym e)
  finish_lem rest list index items d (items', overlay, Found.read_end) (list', o, h, len, e) ih =
      ap done (sym e)
  finish_lem rest list index items d (items', overlay, Found.read_entry d')
        (list', o, h, len, (e, more)) ih =
      let here = dir_of handle inode list dir index in
      let next = λ (o' : Option StringList). record here { inode = with_list here.inode o' } in
      let add = λ (x : Outcome (List Dirent)). x >>= (λ ds. done (d' ∷ ds)) in
      ap (λ b. if not b then add (rest (next overlay) items' d') else done []) more
      ∙ ap (λ o'. add (rest (next o') items' d')) o
      ∙ ap add (ih list' items' d' h len (sym (ap length e)))
      ∙ ap done (sym e)

  behind_index :
      (list : StringList) (index : ℕ) (items : List DirItem) (d : Dirent)
      → length list.strings ≤ index
      → readdir fstatat (dir_of handle inode list dir index) items d
        ≡ done (
            finish
              (dir_of handle inode list dir index)
              d
              (read_stream fstatat handle.flags items (some list)))
  unfolding readdir readdir_dir readdir_stream
  behind_index list index items d p = ground arith

  -- Behind the directories of the inode, the calls give what the stream shows.
  list_stream :
      (fuel : ℕ) (list : StringList) (index : ℕ) (items : List DirItem) (d : Dirent)
      → Hides hidden list
      → length list.strings ≤ index
      → length (shown_of items) < fuel
      → list_all fstatat fuel (dir_of handle inode list dir index) items d ≡ done (shown_of items)
  unfolding list_all
  list_stream zero list index items d h p q = absurd (omega arith)
  list_stream (suc fuel) list index items d h p q =
      ap (λ o. o >>= collect (λ h' is e. list_all fstatat fuel h' is e))
        (behind_index list index items d p)
      ∙ finish_lem (λ h' is e. list_all fstatat fuel h' is e) list index items d
          (read_stream fstatat handle.flags items (some list))
          (read_stream_lem fstatat handle.flags hidden items list (length list.strings) h refl)
          (λ list' items' d' h' len shorter.
            list_stream fuel list' index items' d' h' (omega arith) (omega arith))

  at_index :
      (list : StringList) (front : List Bytes) (name : Bytes) (later : List Bytes)
      (items : List DirItem) (d : Dirent)
      → list.strings ≡ front ++ name ∷ later
      → readdir fstatat (dir_of handle inode list dir (length front)) items d
        ≡ done (
          dir_of handle inode list dir (length front + 1),
          items,
          VfsError.ok,
          stat_virtual_directory name handle.flags,
        )
  unfolding readdir readdir_dir
  at_index list front name later items d e =
      let at : get_or list.strings (length front) [] ≡ name =
        ap (λ xs. get_or xs (length front) []) e ∙ get_or-append front name later in
      let len : length list.strings ≡ length front + suc (length later) =
        ap length e ∙ length-append front (name ∷ later) in
      if-cases
        (λ o.
          o
          ≡ done (
            dir_of handle inode list dir (length front + 1),
            items,
            VfsError.ok,
            stat_virtual_directory name handle.flags,
          ))
        (ltb (length front) (length list.strings))
        {x = done (
          dir_of handle inode list dir (length front + 1),
          items,
          VfsError.ok,
          stat_virtual_directory (get_or list.strings (length front) []) handle.flags,
        )}
        {y = done (
          readdir_stream fstatat (dir_of handle inode list dir (length front)) (some dir) items
            (some list) d)}
        (λ _.
          ap
            (λ n. done (
              dir_of handle inode list dir (length front + 1),
              items,
              VfsError.ok,
              stat_virtual_directory n handle.flags,
            ))
            at)
        (λ b. absurd (ground arith))

  proceed :
      (n : ℕ) (h' : Handle) (is : List DirItem) (name : Bytes)
      → collect
          (λ a b c. list_all fstatat n a b c)
          (h', is, VfsError.ok, stat_virtual_directory name handle.flags)
        ≡ (list_all fstatat n h' is (stat_virtual_directory name handle.flags)
            >>= (λ ds. done (stat_virtual_directory name handle.flags ∷ ds)))
  unfolding stat_virtual_directory
  proceed n h' is name = refl

  one_call :
      (n : ℕ) (h' : Handle) (is : List DirItem) (d : Dirent)
      → list_all fstatat (suc n) h' is d
        ≡ (readdir fstatat h' is d >>= collect (λ a b c. list_all fstatat n a b c))
  unfolding list_all
  one_call n h' is d = refl

  -- In front, the calls give the directories of the inode from the index on.
  list_virtual :
      (front later : List Bytes) (list : StringList) (items : List DirItem) (d : Dirent)
      → list.strings ≡ front ++ later
      → Hides hidden list
      → list_all fstatat
          (length later + suc (length (shown_of items)))
          (dir_of handle inode list dir (length front))
          items
          d
        ≡ done (map (λ name. stat_virtual_directory name handle.flags) later ++ shown_of items)
  list_virtual front [] list items d e h =
      let fuel : 0 + suc (length (shown_of items)) ≡ suc (length (shown_of items)) = omega arith in
      ap (λ n. list_all fstatat n (dir_of handle inode list dir (length front)) items d) fuel
      ∙ list_stream (suc (length (shown_of items))) list (length front) items d h
          (omega (arith, ap length e, length-append front [])) (omega arith)
  list_virtual front (name ∷ later) list items d e h =
      let left = length later + suc (length (shown_of items)) in
      let fuel : suc (length later) + suc (length (shown_of items)) ≡ suc left = omega arith in
      let turn = collect (λ h' is d'. list_all fstatat left h' is d') in
      let first = stat_virtual_directory name handle.flags in
      let index : length front + 1 ≡ length (front ++ name ∷ []) =
        sym (length-append front (name ∷ [])) in
      let rest =
        list_virtual (front ++ name ∷ []) later list items first
          (e ∙ sym (append_assoc front (name ∷ []) later)) h in
      ap (λ n. list_all fstatat n (dir_of handle inode list dir (length front)) items d) fuel
      ∙ one_call left (dir_of handle inode list dir (length front)) items d
      ∙ ap (λ o. o >>= turn) (at_index list front name later items d e)
      ∙ ap (λ i. turn (dir_of handle inode list dir i, items, VfsError.ok, first)) index
      ∙ proceed left (dir_of handle inode list dir (length (front ++ name ∷ []))) items name
      ∙ ap (λ x. x >>= (λ ds. done (first ∷ ds))) rest

  -- Reading a directory of an inode from its start to its end, a client gets an entry for each virtual
  -- directory of the inode, in their order, and then the entries of the stream that are shown, up to
  -- an error; a name of a virtual directory is not shown again. One call more than there are entries
  -- is enough.
  pub readdir_whole :
      (list : StringList) (items : List DirItem) (d : Dirent)
      → Hides hidden list
      → list_all fstatat
          (length list.strings + suc (length (visible fstatat handle.flags hidden items)))
          (dir_of handle inode list dir 0)
          items
          d
        ≡ done (
            map (λ name. stat_virtual_directory name handle.flags) list.strings
            ++ visible fstatat handle.flags hidden items)
  readdir_whole list items d h = list_virtual [] list.strings list items d refl h
