-- ===== src/Vfs/Insert/Step.antt =====
-- `vfs_add_single_inode` (vfs.c) on a well-formed table.
use umsftpd.Prelude.{
  ℕ, ◌≡◌, refl, sym, ap, ◌∙◌, Bool, true, false, ◌==◌, not, List, [], ◌∷◌, ◌++◌, Option, none, some,
  Bytes, All, All-append, length, arith, if◌then◌else◌, Bool-cases, inl, inr, done,
}
use umsftpd.Paths.{truncate_trailing_slash}
use umsftpd.Paths.Names.{IsName, render}
use umsftpd.Paths.Checks.{const_basename}
use umsftpd.StringList
use umsftpd.StringList.{StringList}
use umsftpd.Vfs.{Inode, Vfs, Memory, Site}
use umsftpd.Vfs.Table.{
  Entry, IsNode, entries, entries-cons, entries-append, eq_names, or_else, entry_of,
}
use umsftpd.Vfs.Insert.{insert_subdir, link_parent, make_inode, add_single_inode, truncated_target}

-- Every inode of the table is well formed.
abbrev pub IsTable : List Inode → Type 0
IsTable = All IsNode

-- Two tables stand for the same map.
abbrev pub SameEntries : List Inode → List Inode → Type 0
SameEntries ns ms = (es : List Bytes) → All IsName es → entries ns es ≡ entries ms es

-- The inode with one more name in its list of directories.
abbrev with_subdir : Memory → Bytes → Inode → StringList → Bytes → Inode
with_subdir mem path n list name = record n {
  virtual_subdirs =
      some (StringList.insert (mem Site.subdir_copy path) (mem Site.subdir_array path) list name).0;
}

subdir_here :
    (mem : Memory) (path : Bytes) (p : ℕ) (n : Inode) (ns : List Inode) (name : Bytes)
    (list : StringList)
    → (n.id == p) ≡ true
    → n.virtual_subdirs ≡ some list
    → insert_subdir mem path p (n ∷ ns) name ≡ done (with_subdir mem path n list name ∷ ns)
unfolding insert_subdir
subdir_here mem path p n ns name list e l = ground arith

subdir_behind :
    (mem : Memory) (path : Bytes) (p : ℕ) (n : Inode) (ns ns' : List Inode) (name : Bytes)
    → (n.id == p) ≡ false
    → insert_subdir mem path p ns name ≡ done ns'
    → insert_subdir mem path p (n ∷ ns) name ≡ done (n ∷ ns')
unfolding insert_subdir
subdir_behind mem path p n ns ns' name e i = rw (e, insert_subdir, i)

-- Entering a name under a parent changes no entry.
pub insert_subdir_lem :
    (mem : Memory) (path : Bytes) (p : ℕ) (ns : List Inode) (name : Bytes)
    → IsTable ns
    → (ns' : List Inode) × (insert_subdir mem path p ns name ≡ done ns')
      × IsTable ns'
      × SameEntries ns' ns
      × (length ns' ≡ length ns)
insert_subdir_lem mem path p [] name h =
    ([], unfold insert_subdir in refl, tt, (λ es k. refl), refl)
insert_subdir_lem mem path p (n ∷ ns) name h = elim (Bool-cases (n.id == p)) [
  | inl e ↦
      let v : IsNode n = h.0 in
      let n' = with_subdir mem path n v.list name in
      let v' : IsNode n' = record {
        names = v.names;
        named = v.named;
        path = v.path;
        measured = v.measured;
        target_measured = v.target_measured;
        list =
            (StringList.insert (mem Site.subdir_copy path) (mem Site.subdir_array path) v.list
              name).0;
        listed = refl;
      } in
      (
        n' ∷ ns,
        subdir_here mem path p n ns name v.list e v.listed,
        (v', h.1),
        (λ es k. entries-cons n' ns v' es k ∙ sym (entries-cons n ns v es k)),
        refl,
      )
  | inr e ↦
      let (ns', i, t, same, len) = insert_subdir_lem mem path p ns name h.1 in
      (
        n ∷ ns',
        subdir_behind mem path p n ns ns' name e i,
        (h.0, t),
        (λ es k.
            entries-cons n ns' h.0 es k
            ∙ ap (λ o. if eq_names (h.0).names es then some (entry_of n) else o) (same es k)
            ∙ sym (entries-cons n ns h.0 es k)),
        omega arith,
      )
]

-- The path of a new inode has a base name, or there is no parent to enter it under.
abbrev pub Linkable : Option ℕ → Bytes → Type 0
Linkable none vpath = Unit
Linkable (some p) vpath = (name : Bytes) × (const_basename vpath ≡ done name)

link_parent_lem :
    (mem : Memory) (vfs : Vfs) (vpath : Bytes) (prev : Option ℕ)
    → IsTable vfs.inodes
    → Linkable prev vpath
    → (ns : List Inode) × (link_parent mem vfs vpath prev ≡ done (record vfs { inodes = ns }))
      × IsTable ns
      × SameEntries ns vfs.inodes
      × (length ns ≡ length vfs.inodes)
unfolding link_parent
link_parent_lem mem vfs vpath none t b = (vfs.inodes, refl, t, (λ es k. refl), refl)
link_parent_lem mem vfs vpath (some p) t (name, e) =
    let (ns, i, t', same, len) = insert_subdir_lem mem vpath p vfs.inodes name t in
    (ns, rw (e, i), t', same, len)

-- Every request for memory is granted.
abbrev pub Granted : Memory → Type 0
Granted mem = (s : Site) (path : Bytes) → mem s path ≡ true

made-IsNode :
    (mem : Memory) (id : ℕ) (ds : List Bytes) (target : Option Bytes) (set reset : ℕ)
    (prev : Option ℕ)
    → Granted mem
    → All IsName ds
    → IsNode (make_inode mem id (render ds) target set reset prev)
made-IsNode mem id ds target set reset prev g h = record {
  names = ds;
  named = h;
  path = refl;
  measured = refl;
  target_measured = refl;
  list = StringList.empty;
  listed = ap StringList.new (g Site.subdirs (render ds)) ∙ unfold StringList.new in refl;
}

abbrev pub new_entry : Option Bytes → ℕ → ℕ → Entry
new_entry target set reset = record {
  flags_set = set;
  flags_reset = reset;
  target = truncated_target target;
}

target_granted :
    (mem : Memory) (path : Bytes) (target : Option Bytes)
    → Granted mem
    → ◌≡◌ {A = Bool} (elim target [ none ↦ false | some t ↦ not (mem Site.tpath_copy path) ]) false
target_granted mem path none g = refl
target_granted mem path (some t) g = rw (g Site.tpath_copy path)

add_single_run :
    (mem : Memory) (vfs : Vfs) (path vpath : Bytes) (target : Option Bytes) (set reset : ℕ)
    (prev : Option ℕ) (ns : List Inode)
    → Granted mem
    → truncate_trailing_slash path ≡ vpath
    → link_parent mem vfs vpath prev ≡ done (record vfs { inodes = ns })
    → add_single_inode mem vfs path target set reset prev
      ≡ done (
        record vfs { inodes = ns ++ make_inode mem (length ns) vpath target set reset prev ∷ [] },
        some (length ns),
      )
unfolding add_single_inode
add_single_run mem vfs path vpath target set reset prev ns g e l = rw (
  e,
  g Site.vpath_copy path,
  target_granted mem path target g,
  g Site.new_inode path,
  l,
  g Site.inode_array path,
)

-- With memory, `vfs_add_single_inode` adds one entry to the map where none stands.
pub add_single_inode_lem :
    (mem : Memory) (vfs : Vfs) (path : Bytes) (ds : List Bytes) (target : Option Bytes)
    (set reset : ℕ) (prev : Option ℕ)
    → Granted mem
    → IsTable vfs.inodes
    → All IsName ds
    → truncate_trailing_slash path ≡ render ds
    → Linkable prev (render ds)
    → (ns : List Inode) × (add_single_inode mem vfs path target set reset prev
        ≡ done (record vfs { inodes = ns }, some (length vfs.inodes)))
      × IsTable ns
      × ((es : List Bytes)
          → All IsName es
          → entries ns es
            ≡ or_else
                (entries vfs.inodes es)
                (if eq_names ds es then some (new_entry target set reset) else none))
unfolding made-IsNode
add_single_inode_lem mem vfs path ds target set reset prev g t h e b =
    let (ns, l, t', same, len) = link_parent_lem mem vfs (render ds) prev t b in
    let n = make_inode mem (length ns) (render ds) target set reset prev in
    let v = made-IsNode mem (length ns) ds target set reset prev g h in
    (
      ns ++ n ∷ [],
      add_single_run mem vfs path (render ds) target set reset prev ns g e l
          ∙ ap (λ i. done (record vfs { inodes = ns ++ n ∷ [] }, some i)) len,
      All-append IsNode ns (n ∷ []) t' (v, tt),
      λ es k.
          entries-append ns n v es t' k
          ∙ ap (λ o. or_else o (if eq_names ds es then some (new_entry target set reset) else none))
              (same es k),
    )
