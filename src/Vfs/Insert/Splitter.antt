-- ===== src/Vfs/Insert/Splitter.antt =====
-- One call of `vfs_add_inode_splitter` (vfs.c) on a well-formed table.
use umsftpd.Prelude.{
  ℕ, ◌≡◌, refl, ap, ◌∙◌, Bool, true, false, List, Option, none, some, Bytes, All, length, arith,
  if◌then◌else◌, Bool-cases, Option-cases, inl, inr, Outcome, done,
}
use umsftpd.Paths.Names.{IsName, render, show}
use umsftpd.Paths.Compare.{truncate-show}
use umsftpd.Vfs.{Inode, Vfs, Memory, find_in, find_inode}
use umsftpd.Vfs.Table.{Entry, entries, eq_names, eq_names_iff, or_else, or_else-none, entry_of}
use umsftpd.Vfs.Insert.{add_single_inode, add_inode_splitter, enter_prefix}
use umsftpd.Vfs.Insert.Step.{IsTable, Granted, Linkable, new_entry, add_single_inode_lem}

-- What is entered for a prefix: the leaf's configuration, or an empty one on the way to it.
abbrev pub leaf_or_blank : Bool → Option Bytes → ℕ → ℕ → Entry
leaf_or_blank full target set reset =
    if full then new_entry target set reset else new_entry none 0 0

splitter_found :
    (mem : Memory) (vfs : Vfs) (path : Bytes) (full : Bool) (target : Option Bytes) (set reset : ℕ)
    (prev : Option ℕ) (m : Inode)
    → find_inode vfs path ≡ some m
    → (add_inode_splitter mem target set reset path full (done (vfs, prev))).0
      ≡ done (vfs, some m.id)
unfolding add_inode_splitter
splitter_found mem vfs path full target set reset prev m e =
    ap (enter_prefix mem target set reset path full vfs prev) e

splitter_missing :
    (mem : Memory) (vfs : Vfs) (path : Bytes) (full : Bool) (target : Option Bytes) (set reset : ℕ)
    (prev : Option ℕ)
    → find_inode vfs path ≡ none
    → (add_inode_splitter mem target set reset path full (done (vfs, prev))).0 ≡ (
        if full
        then add_single_inode mem vfs path target set reset prev
        else add_single_inode mem vfs path none 0 0 prev)
unfolding add_inode_splitter
splitter_missing mem vfs path full target set reset prev e =
    ap (enter_prefix mem target set reset path full vfs prev) e ∙ ground arith

-- An entry that is there already keeps what is there.
kept :
    (ns : List Inode) (ds es : List Bytes) (m : Inode) (x : Entry)
    → find_in ns (show ds) ≡ some m
    → entries ns es ≡ or_else (entries ns es) (if eq_names ds es then some x else none)
kept ns ds es m x e = elim (Bool-cases (eq_names ds es)) [
  | inl same ↦
      let same' : ds ≡ es = (eq_names_iff ds es).0 same in
      let f : entries ns es ≡ some (entry_of m) = rw (← same', e) refl in rw f
  | inr other ↦ rw other (or_else-none (entries ns es))
]

-- The call succeeds, and the map has the prefix's entry where none stood.
abbrev pub Enters : Outcome (Vfs × Option ℕ) → Vfs → List Bytes → Entry → Type 0
Enters result vfs ds x =
    (ns : List Inode) × (id : ℕ) × (result ≡ done (record vfs { inodes = ns }, some id))
    × IsTable ns
    × ((es : List Bytes)
        → All IsName es
        → entries ns es ≡ or_else (entries vfs.inodes es) (if eq_names ds es then some x else none))

module _ (mem : Memory) (vfs : Vfs) (ds : List Bytes) (target : Option Bytes) (set reset : ℕ)
    (prev : Option ℕ) (g : Granted mem) (t : IsTable vfs.inodes) (h : All IsName ds)
    (b : Linkable prev (render ds)) where
  abbrev called : Bool → Outcome (Vfs × Option ℕ)
  called full = (add_inode_splitter mem target set reset (show ds) full (done (vfs, prev))).0

  Enters-missing :
      (full : Bool)
      → find_inode vfs (show ds) ≡ none
      → Enters (called full) vfs ds (leaf_or_blank full target set reset)
  Enters-missing true e =
      let (ns, l, t', same) =
        add_single_inode_lem mem vfs (show ds) ds target set reset prev g t h (truncate-show ds h)
          b in
      (
        ns,
        length vfs.inodes,
        splitter_missing mem vfs (show ds) true target set reset prev e ∙ l,
        t',
        same,
      )
  Enters-missing false e =
      let (ns, l, t', same) =
        add_single_inode_lem mem vfs (show ds) ds none 0 0 prev g t h (truncate-show ds h) b in
      (
        ns,
        length vfs.inodes,
        splitter_missing mem vfs (show ds) false target set reset prev e ∙ l,
        t',
        same,
      )

  -- One call of the splitter: what is missing at the prefix is added.
  pub add_inode_splitter_lem :
      (full : Bool) → Enters (called full) vfs ds (leaf_or_blank full target set reset)
  add_inode_splitter_lem full = elim (Option-cases (find_inode vfs (show ds))) [
    | inl e ↦ Enters-missing full e
    | inr (m, e) ↦ (
      vfs.inodes,
      m.id,
      splitter_found mem vfs (show ds) full target set reset prev m e,
      t,
      λ es k.
          kept vfs.inodes ds es m (leaf_or_blank full target set reset) (unfold find_inode in e),
    )
  ]
