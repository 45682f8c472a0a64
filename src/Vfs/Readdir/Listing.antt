-- ===== src/Vfs/Readdir/Listing.antt =====
-- What a client sees of a directory that it reads to the end with `vfs_readdir` (vfs.c).
use mathlib.Core.Path.{subst}
use umsftpd.Prelude.{
  false, ℕ, ◌≡◌, refl, sym, ap, ◌∙◌, Bool, not, ◌||◌, if-cases, List, [], ◌∷◌, Option, none, some,
  Bytes, length, codes, str_eq, if◌then◌else◌, Bool-cases, inl, inr,
}
use umsftpd.StringList.{StringList, contains}
use umsftpd.StringList.Sort.{elem}
use umsftpd.StringList.Search.{IsOrdered, contains-elem, contains_keeps}
use umsftpd.Vfs.System.{StatResult, stat_failed, stat_done}
use umsftpd.Vfs.Stat.{Dirent, short_name, stat_statbuf}
use umsftpd.Vfs.Readdir.{
  DirentType, DirItem, failed, entry, Found, is_supported, is_special, overlaid, stat_entry,
  examine, read_stream, go_on,
}

-- A list of subdirectories that hides these names.
abbrev pub Hides : (Bytes → Bool) → StringList → Type 0
Hides hidden list = IsOrdered list × ((name : Bytes) → elem name list.strings ≡ hidden name)

abbrev pub see : Option Dirent → List Dirent → List Dirent
see none ds = ds
see (some d) ds = d ∷ ds

module _ (fstatat : Bytes → StatResult) (flags : ℕ) (hidden : Bytes → Bool) where
  -- An entry of the stream, where it is shown.
  abbrev pub shown : Bytes → DirentType → Option Dirent
  shown name type =
      if str_eq name (codes ".") || str_eq name (codes "..")
      then none
      else if not (is_supported type)
      then none
      else if hidden name
      then none
      else stat_entry fstatat flags name

  -- All entries that are shown, up to an error of the stream.
  pub visible : List DirItem → List Dirent
  visible [] = []
  visible (failed ∷ items) = []
  visible (entry name type ∷ items) = see (shown name type) (visible items)

  overlaid_lem :
      (list : StringList) (name : Bytes)
      → Hides hidden list
      → (list' : StringList) × (overlaid (some list) name ≡ (some list', hidden name))
        × Hides hidden list'
        × (length list'.strings ≡ length list.strings)
  unfolding overlaid
  overlaid_lem list name (ordered, same) =
      let (found, _, ordered') = contains-elem list name ordered in
      let (kept, len) = contains_keeps list name in
      (
        (contains list name).0,
        ap (λ b. (some (contains list name).0, b)) (found ∙ same name),
        (ordered', λ n. kept n ∙ same n),
        len,
      )

  examine_lem :
      (list : StringList) (name : Bytes) (type : DirentType)
      → Hides hidden list
      → (list' : StringList) × (examine fstatat flags name type (some list)
          ≡ (some list', shown name type))
        × Hides hidden list'
        × (length list'.strings ≡ length list.strings)
  unfolding examine
  examine_lem list name type h =
      elim (Bool-cases (str_eq name (codes ".") || str_eq name (codes ".."))) [
        | inl e ↦ (list, rw e refl, h, refl)
        | inr e ↦ elim (Bool-cases (is_supported type)) [
          | inr f ↦ (list, rw (e, f) refl, h, refl)
          | inl f ↦
              let (list', q, h', len) = overlaid_lem list name h in
              (
                list',
                rw (e, f)
                    (ap
                      (λ (r : Option StringList × Bool).
                        (r.0, if r.1 then none else stat_entry fstatat flags name))
                      q),
                h',
                len,
              )
        ]
      ]

  -- What the loop has done with a stream of which these entries are shown.
  abbrev pub Reads : List Dirent → ℕ → List DirItem × Option StringList × Found → Type 0
  Reads ds count (items', overlay, found) =
      (list : StringList) × (overlay ≡ some list)
      × Hides hidden list
      × (length list.strings ≡ count)
      × elim found [
        | Found.read_entry d ↦ (ds ≡ d ∷ visible items') × (d.eof ≡ false)
        | _ ↦ ds ≡ []
      ]

  -- An entry that is shown is not the end.
  abbrev Proceeds : Option Dirent → Type 0
  Proceeds none = Unit
  Proceeds (some d) = d.eof ≡ false

  stat_entry-Proceeds : (name : Bytes) → Proceeds (stat_entry fstatat flags name)
  unfolding stat_entry stat_statbuf
  stat_entry-Proceeds name = by_result (fstatat (short_name name))
    where
      by_result :
          (r : StatResult)
          → Proceeds (elim r [
            | stat_failed e ↦ none
            | stat_done s ↦
                (if is_special s then none else some (stat_statbuf s (short_name name) flags))
          ])
      by_result (stat_failed e) = tt
      by_result (stat_done s) =
          if-cases Proceeds (is_special s) {x = none}
            {y = some (stat_statbuf s (short_name name) flags)} (λ _. tt) (λ _. refl)

  shown-Proceeds : (name : Bytes) (type : DirentType) → Proceeds (shown name type)
  shown-Proceeds name type =
      let e = stat_entry fstatat flags name in
      let unhidden = if hidden name then none else e in
      if-cases Proceeds (str_eq name (codes ".") || str_eq name (codes "..")) {x = none}
        {y = if not (is_supported type) then none else unhidden} (λ _. tt)
        (λ _.
          if-cases Proceeds (not (is_supported type)) {x = none} {y = unhidden} (λ _. tt)
            (λ _.
              if-cases Proceeds (hidden name) {x = none} {y = e} (λ _. tt)
                (λ _. stat_entry-Proceeds name)))

  turn_lem :
      (items : List DirItem) (list list' : StringList) (k : Option Dirent)
      → Hides hidden list'
      → Proceeds k
      → length list'.strings ≡ length list.strings
      → ((count : ℕ)
          → length list'.strings ≡ count
          → Reads (visible items) count (read_stream fstatat flags items (some list')))
      → Reads
          (see k (visible items))
          (length list.strings)
          (go_on items (λ o. read_stream fstatat flags items o) (some list', k))
  turn_lem items list list' none h _ len rest = rest (length list.strings) len
  turn_lem items list list' (some d) h more len rest = (list', refl, h, len, (refl, more))

  -- The loop of `vfs_readdir` returns the first entry that is shown and leaves the stream with the
  -- others still to come; it ends when none is left. The list of subdirectories, which it may sort,
  -- hides the same names as before.
  pub read_stream_lem :
      (items : List DirItem) (list : StringList) (count : ℕ)
      → Hides hidden list
      → length list.strings ≡ count
      → Reads (visible items) count (read_stream fstatat flags items (some list))
  unfolding read_stream visible
  read_stream_lem [] list count h e = (list, refl, h, e, refl)
  read_stream_lem (failed ∷ items) list count h e = (list, refl, h, e, refl)
  read_stream_lem (entry name type ∷ items) list count h e =
      let (list', q, h', len) = examine_lem list name type h in
      subst
        (λ n.
          Reads (visible (entry name type ∷ items)) n
            (read_stream fstatat flags (entry name type ∷ items) (some list)))
        e
        (subst (Reads (visible (entry name type ∷ items)) (length list.strings))
          (ap (go_on items (λ o. read_stream fstatat flags items o)) (sym q))
          (turn_lem items list list' (shown name type) h' (shown-Proceeds name type) len
            (λ n p. read_stream_lem items list' n h' p)))
