-- ===== src/Shell/Program/Mapped.antt =====
-- The program of vfsdebug.c maps the paths below "/incoming" to "/tmp/incoming".
use mathlib.Core.Option
use mathlib.Core.Path.{subst}
use umsftpd.Prelude.{
  ◌≡◌, refl, sym, ap, ◌∙◌, List, [], ◌∷◌, ◌++◌, Option, none, some, Bytes, All, All-append, codes,
  Option-cases, inl, inr,
}
use umsftpd.Paths.{slash, truncate_trailing_slash, truncated, pathcmp}
use umsftpd.Paths.Names.{IsName, render, show}
use umsftpd.Paths.Buffer.{show_snoc, render_snoc}
use umsftpd.Paths.Compare.{pathcmp-render}
use umsftpd.Paths.Split.{branch, prefixes}
use umsftpd.Vfs.{Inode, Vfs, find_in, find_inode}
use umsftpd.Vfs.Table.{Entry, entry_of, found-IsNode}
use umsftpd.Vfs.Lookup.Deepest.{deepest, first_some, mounted}
use umsftpd.Vfs.Node.Fits.{InJail}
use umsftpd.Vfs.Node.Mapped.{mapped_rest}
use umsftpd.Shell.Program.Table.{IsProgram, incoming, mounted_map}

-- Nothing is configured below "/incoming".
below_none : (ps : List Bytes) (d : Bytes) → mounted_map (incoming ∷ (ps ++ d ∷ [])) ≡ none
below_none [] d = refl
below_none (p ∷ ps) d = refl

-- Two lists of names with the same path are the same.
render_inj : (ps qs : List Bytes) → All IsName ps → All IsName qs → render ps ≡ render qs → ps ≡ qs
render_inj ps qs h k e =
    ((pathcmp-render ps qs h k).0).0
      (ap (λ s. pathcmp s (show qs)) e ∙ ((pathcmp-render qs qs k k).0).1 refl)

names_front : (ps rest : List Bytes) → All IsName (ps ++ rest) → All IsName ps
names_front [] rest k = tt
names_front (p ∷ ps) rest k = (k.0, names_front ps rest k.1)

mapped_below : (rest : List Bytes) → mapped_rest (incoming ∷ []) rest ≡ render rest
mapped_below [] = refl
mapped_below (r ∷ rest) = refl

abbrev tail_of : List Bytes → List Bytes
tail_of [] = []
tail_of (c ∷ cs) = cs

module _ (vfs : Vfs) (p : IsProgram vfs) where
  not_found :
      (es : List Bytes) → All IsName es → mounted_map es ≡ none → find_inode vfs (show es) ≡ none
  unfolding find_inode
  not_found es h e = elim (Option-cases (find_in vfs.inodes (show es))) [
    | inl f ↦ f
    | inr (n, f) ↦
        let wrong : some (entry_of n) ≡ none =
          sym (ap (Option.map entry_of) f) ∙ p.mounted es h ∙ e in
        absurd (let x : some (entry_of n) ≡ none = wrong in cc)
  ]

  -- No inode below "/incoming" is a mountpoint.
  nothing_below :
      (ps : List Bytes) (d : Bytes) (ds : List Bytes)
      → All IsName ps
      → All IsName (d ∷ ds)
      → All IsName (incoming ∷ [])
      → deepest vfs (branch (render (incoming ∷ ps)) d ds) ≡ none
  unfolding deepest
  nothing_below ps d [] k h i = ap (mounted vfs) (
      ap (find_inode vfs) (sym (show_snoc (incoming ∷ ps) d))
      ∙ not_found (incoming ∷ (ps ++ d ∷ [])) (i.0, All-append IsName ps (d ∷ []) k (h.0, tt))
          (below_none ps d))
  nothing_below ps d (c ∷ ds) k h i =
      ap (λ o. first_some o (mounted vfs (find_inode vfs (render (incoming ∷ ps) ++ slash ∷ d))))
        (ap (λ s. deepest vfs (branch s c ds)) (sym (render_snoc (incoming ∷ ps) d))
          ∙ nothing_below (ps ++ d ∷ []) c ds (All-append IsName ps (d ∷ []) k (h.0, tt)) h.1 i)
      ∙ ap (mounted vfs) (
          ap (find_inode vfs) (sym (show_snoc (incoming ∷ ps) d))
          ∙ not_found (incoming ∷ (ps ++ d ∷ [])) (i.0, All-append IsName ps (d ∷ []) k (h.0, tt))
              (below_none ps d))

  abbrev IsIncoming : Inode → Type 0
  IsIncoming n =
      (find_inode vfs (show (incoming ∷ [])) ≡ some n)
      × (n.target_path ≡ some (codes "/tmp/incoming"))

  incoming_found : All IsName (incoming ∷ []) → (n : Inode) × IsIncoming n
  unfolding find_inode truncate_trailing_slash truncated
  incoming_found i = elim (Option-cases (find_in vfs.inodes (show (incoming ∷ [])))) [
    | inl f ↦
        let wrong : none ≡ some (mounted_entry) =
          sym (ap (Option.map entry_of) f) ∙ p.mounted (incoming ∷ []) i in
        absurd (let x : ◌≡◌ {A = Option Entry} none (some mounted_entry) = wrong in cc)
    | inr (n, f) ↦
        (n, (f, ap target_of (sym (ap (Option.map entry_of) f) ∙ p.mounted (incoming ∷ []) i)))
  ]
    where
      mounted_entry : Entry
      mounted_entry = record {
        flags_set = 0;
        flags_reset = 1;
        target = some (codes "/tmp/incoming");
      }

      target_of : Option Entry → Option Bytes
      target_of none = none
      target_of (some x) = x.target

  deepest-incoming :
      (rest : List Bytes) (n : Inode)
      → All IsName (incoming ∷ rest)
      → IsIncoming n
      → deepest vfs (prefixes (incoming ∷ rest)) ≡ some n
  unfolding deepest
  deepest-incoming rest n h (f, e) =
      ap (λ o. first_some o (mounted vfs (find_inode vfs (slash ∷ [])))) (below rest h.1)
    where
      at : mounted vfs (find_inode vfs (show (incoming ∷ []))) ≡ some n
      at = ap (mounted vfs) f ∙ ap (λ t. elim t [ none ↦ none | some t ↦ some n ]) e

      below : (rest : List Bytes) → All IsName rest → deepest vfs (branch [] incoming rest) ≡ some n
      below [] k = at
      below (d ∷ ds) k =
          ap (λ o. first_some o (mounted vfs (find_inode vfs (show (incoming ∷ [])))))
            (nothing_below [] d ds tt k (h.0, tt))
          ∙ at

  -- Below "/incoming" a path is mapped below "/tmp/incoming".
  pub jail_incoming :
      (rest : List Bytes) (mapped : Option Bytes)
      → All IsName (incoming ∷ rest)
      → InJail vfs (incoming ∷ rest) mapped
      → mapped ≡ some (codes "/tmp/incoming" ++ render rest)
  jail_incoming rest none h last =
      let (n, i) = incoming_found (h.0, tt) in
      let wrong : none ≡ some n = sym last ∙ deepest-incoming rest n h i in
      absurd (let x : ◌≡◌ {A = Option Inode} none (some n) = wrong in cc)
  jail_incoming rest (some mapped) h (ps, rest', m, t, e, f, et, q, last) =
      let (n, (g, en)) = incoming_found (h.0, tt) in
      let same : some m ≡ some n = sym last ∙ deepest-incoming rest n h (g, en) in
      let same' : m ≡ n = cc in
      let names : All IsName ps = names_front ps rest' (subst (All IsName) e h) in
      let (v, ev) =
        found-IsNode vfs.inodes ps m p.well_formed.table names (unfold find_inode in f) in
      let (w, ew) =
        found-IsNode vfs.inodes (incoming ∷ []) n p.well_formed.table (h.0, tt)
          (unfold find_inode in g) in
      let at : ps ≡ incoming ∷ [] =
        render_inj ps (incoming ∷ []) names (h.0, tt)
          (ap render (sym ev)
            ∙ sym v.path
            ∙ ap (λ x. x.virtual_path) same'
            ∙ w.path
            ∙ ap render ew) in
      let rest_same : rest ≡ rest' = ap tail_of (e ∙ ap (λ qs. qs ++ rest') at) in
      let target : some t ≡ some (codes "/tmp/incoming") =
        sym et ∙ ap (λ x. x.target_path) same' ∙ en in
      let target' : t ≡ codes "/tmp/incoming" = cc in
      ap some (
        q
        ∙ ap (λ x. x ++ mapped_rest ps rest') target'
        ∙ ap (λ qs. codes "/tmp/incoming" ++ mapped_rest qs rest') at
        ∙ ap (λ r. codes "/tmp/incoming" ++ mapped_rest (incoming ∷ []) r) (sym rest_same)
        ∙ ap (λ x. codes "/tmp/incoming" ++ x) (mapped_below rest))
