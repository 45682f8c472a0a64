-- ===== src/Vfs/Insert/Refine.antt =====
-- `vfs_add_inode` (vfs.c) refines an insertion into a map that also enters the directories above.
use mathlib.Core.Option
use umsftpd.Prelude.{
  ℕ, ◌≡◌, refl, sym, ap, ◌∙◌, Bool, true, false, List, [], ◌∷◌, ◌++◌, Option, none, some, Bytes,
  All, All-append, if◌then◌else◌, Option-cases, inl, inr, Outcome, done,
}
use umsftpd.Paths.{slash}
use umsftpd.Paths.Names.{is_absolute_path-show, Lacks, IsName, render, show}
use umsftpd.Paths.Buffer.{show_snoc, render_snoc}
use umsftpd.Paths.Split.{branch, prefixes, run_until, path_split-show}
use umsftpd.Paths.Checks.Laws.{const_basename-append}
use umsftpd.Vfs.{Inode, Vfs, Memory, find_in, find_inode}
use umsftpd.Vfs.Table.{Entry, entry_of, entries, eq_names, or_else}
use umsftpd.Vfs.Insert.Grown.{
  blank, grown, strip, deeper, strip_snoc, eq_names_snoc, deeper_last, deeper_next, is_last,
}
use umsftpd.Vfs.Insert.{add_inode_splitter, add_inode, given_relative}
use umsftpd.Vfs.Insert.Step.{IsTable, Granted, Linkable, new_entry}
use umsftpd.Vfs.Insert.Splitter.{leaf_or_blank, Enters, add_inode_splitter_lem}

linkable :
    (ps : List Bytes) (c : Bytes) (prev : Option ℕ)
    → Lacks c
    → Linkable prev (render (ps ++ c ∷ []))
linkable ps c none h = tt
linkable ps c (some p) h = (c, rw (render_snoc ps c) (const_basename-append (render ps) c h))

module _ (mem : Memory) (target : Option Bytes) (set reset : ℕ) (g : Granted mem) where
  abbrev splitter : Bytes → Bool → Outcome (Vfs × Option ℕ) → Outcome (Vfs × Option ℕ) × Bool
  splitter = add_inode_splitter mem target set reset

  abbrev leaf : Entry
  leaf = new_entry target set reset

  run_splitter :
      (ctx : Outcome (Vfs × Option ℕ)) (path : Bytes) (full : Bool) (rest : List (Bytes × Bool))
      → run_until splitter ctx ((path, full) ∷ rest)
        ≡ run_until splitter (splitter path full ctx).0 rest
  unfolding run_until add_inode_splitter
  run_splitter ctx path full rest = refl

  -- One prefix below the root.
  enter_name :
      (vfs : Vfs) (prev : Option ℕ) (ps : List Bytes) (c : Bytes) (full : Bool)
      → IsTable vfs.inodes
      → All IsName (ps ++ c ∷ [])
      → Lacks c
      → Enters
          (splitter (render ps ++ slash ∷ c) full (done (vfs, prev))).0
          vfs
          (ps ++ c ∷ [])
          (leaf_or_blank full target set reset)
  enter_name vfs prev ps c full t h l = rw (← show_snoc ps c) (
      add_inode_splitter_lem mem vfs (ps ++ c ∷ []) target set reset prev g t h
        (linkable ps c prev l) full)

  root_only : (es : List Bytes) → (if eq_names [] es then some leaf else none) ≡ grown [] leaf es
  root_only [] = refl
  root_only (e ∷ es) = refl

  root_and_below :
      (c : Bytes) (cs : List Bytes) (o : Option Entry) (es : List Bytes)
      → or_else
          (or_else o (if eq_names [] es then some blank else none))
          (deeper c cs leaf (some es))
        ≡ or_else o (grown (c ∷ cs) leaf es)
  root_and_below c cs (some y) es = refl
  root_and_below c cs none [] = refl
  root_and_below c cs none (e ∷ es) = refl

  -- What the calls for the prefixes below `ps` leave.
  abbrev Grows : Outcome (Vfs × Option ℕ) → Vfs → (List Bytes → Option Entry) → Type 0
  Grows result vfs below =
      (ns : List Inode) × (prev : Option ℕ) × (result ≡ done (record vfs { inodes = ns }, prev))
      × IsTable ns
      × ((es : List Bytes)
          → All IsName es
          → entries ns es ≡ or_else (entries vfs.inodes es) (below es))

  run_branch :
      (vfs : Vfs) (prev : Option ℕ) (ps : List Bytes) (c : Bytes) (cs : List Bytes)
      → IsTable vfs.inodes
      → All IsName ps
      → All IsName (c ∷ cs)
      → Grows
          (run_until splitter (done (vfs, prev)) (branch (render ps) c cs))
          vfs
          (λ es. deeper c cs leaf (strip ps es))
  run_branch vfs prev ps c [] t hp h =
      let hc : All IsName (ps ++ c ∷ []) = All-append IsName ps (c ∷ []) hp h in
      let (ns, id, r, t', same) = enter_name vfs prev ps c true t hc h.0.1 in
      (
        ns,
        some id,
        run_splitter (done (vfs, prev)) (render ps ++ slash ∷ c) true [] ∙ unfold run_until in r,
        t',
        λ es k.
            same es k
            ∙ ap (λ b. or_else (entries vfs.inodes es) (if b then some leaf else none))
                (eq_names_snoc ps c es)
            ∙ ap (or_else (entries vfs.inodes es)) (deeper_last c leaf (strip ps es)),
      )
  run_branch vfs prev ps c (d ∷ cs) t hp h =
      let hc : All IsName (ps ++ c ∷ []) = All-append IsName ps (c ∷ []) hp (h.0, tt) in
      let (ns, id, r, t', same) = enter_name vfs prev ps c false t hc h.0.1 in
      let (ms, prev', r', t'', same') =
        run_branch (record vfs { inodes = ns }) (some id) (ps ++ c ∷ []) d cs t' hc h.1 in
      (
        ms,
        prev',
        run_splitter (done (vfs, prev)) (render ps ++ slash ∷ c) false
              (branch (render ps ++ slash ∷ c) d cs)
            ∙ ap (λ ctx. run_until splitter ctx (branch (render ps ++ slash ∷ c) d cs)) r
            ∙ ap
                (λ q.
                  run_until splitter (done (record vfs { inodes = ns }, some id)) (branch q d cs))
                (sym (render_snoc ps c))
            ∙ r',
        t'',
        λ es k.
            same' es k
            ∙ ap (λ o. or_else o (deeper d cs leaf (strip (ps ++ c ∷ []) es)))
                (same es k
                  ∙ ap (λ b. or_else (entries vfs.inodes es) (if b then some blank else none))
                      (eq_names_snoc ps c es))
            ∙ ap
                (λ o.
                  or_else
                    (or_else (entries vfs.inodes es)
                      (if is_last c (strip ps es) then some blank else none))
                    (deeper d cs leaf o))
                (strip_snoc ps c es)
            ∙ deeper_next c d cs leaf (strip ps es) (entries vfs.inodes es),
      )

  run_prefixes :
      (vfs : Vfs) (cs : List Bytes)
      → IsTable vfs.inodes
      → All IsName cs
      → Grows (run_until splitter (done (vfs, none)) (prefixes cs)) vfs (grown cs leaf)
  run_prefixes vfs [] t h =
      let (ns, id, r, t', same) =
        add_inode_splitter_lem mem vfs [] target set reset none g t tt tt true in
      (
        ns,
        some id,
        run_splitter (done (vfs, none)) (slash ∷ []) true [] ∙ unfold run_until in r,
        t',
        λ es k. same es k ∙ ap (or_else (entries vfs.inodes es)) (root_only es),
      )
  run_prefixes vfs (c ∷ cs) t h =
      let (ns, id, r, t', same) =
        add_inode_splitter_lem mem vfs [] target set reset none g t tt tt false in
      let (ms, prev', r', t'', same') =
        run_branch (record vfs { inodes = ns }) (some id) [] c cs t' tt h in
      (
        ms,
        prev',
        run_splitter (done (vfs, none)) (slash ∷ []) false (branch [] c cs)
            ∙ ap (λ ctx. run_until splitter ctx (branch [] c cs)) r
            ∙ r',
        t'',
        λ es k.
            same' es k
            ∙ ap (λ o. or_else o (deeper c cs leaf (some es))) (same es k)
            ∙ root_and_below c cs (entries vfs.inodes es) es,
      )

find_none :
    (vfs : Vfs) (cs : List Bytes) → entries vfs.inodes cs ≡ none → find_inode vfs (show cs) ≡ none
unfolding find_inode
find_none vfs cs e = elim (Option-cases (find_in vfs.inodes (show cs))) [
  | inl f ↦ f
  | inr (n, f) ↦ let x : some (entry_of n) ≡ none = sym (ap (Option.map entry_of) f) ∙ e in cc
]

add_run :
    (mem : Memory) (vfs : Vfs) (cs : List Bytes) (target : Option Bytes) (set reset : ℕ)
    → given_relative target ≡ false
    → entries vfs.inodes cs ≡ none
    → All IsName cs
    → (ns : List Inode) (prev : Option ℕ)
    → run_until (add_inode_splitter mem target set reset) (done (vfs, none)) (prefixes cs)
      ≡ done (record vfs { inodes = ns }, prev)
    → add_inode mem vfs (show cs) target set reset ≡ done (record vfs { inodes = ns }, true)
unfolding add_inode
add_run mem vfs cs target set reset rel free h ns prev r =
    rw (is_absolute_path-show cs, rel, find_none vfs cs free)
      (rw (path_split-show (add_inode_splitter mem target set reset) cs (done (vfs, none)) h, r))

-- With memory, adding an inode for a list of names that has none, with an absolute target or none,
-- succeeds, and the table is well formed again. The map, of flags and targets, then has the given ones
-- there, a blank directory at every list above that had nothing, and all it had before. The lists of
-- subdirectories are no part of that map.
pub add_inode_refines :
    (mem : Memory) (vfs : Vfs) (cs : List Bytes) (target : Option Bytes) (set reset : ℕ)
    → Granted mem
    → IsTable vfs.inodes
    → All IsName cs
    → given_relative target ≡ false
    → entries vfs.inodes cs ≡ none
    → (ns : List Inode) × (add_inode mem vfs (show cs) target set reset
        ≡ done (record vfs { inodes = ns }, true))
      × IsTable ns
      × ((es : List Bytes)
          → All IsName es
          → entries ns es
            ≡ or_else (entries vfs.inodes es) (grown cs (new_entry target set reset) es))
add_inode_refines mem vfs cs target set reset g t h rel free =
    let (ns, prev, r, t', same) = run_prefixes mem target set reset g vfs cs t h in
    (ns, add_run mem vfs cs target set reset rel free h ns prev r, t', same)
