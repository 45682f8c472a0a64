-- ===== src/Shell/Program/Links.antt =====
-- Nowhere in the file system that `main` of vfsdebug.c sets up symbolic links are followed.
use mathlib.Core.Path.{subst}
use umsftpd.Prelude.{
  ℕ, ◌≡◌, refl, sym, ap, ◌∙◌, Bool, true, false, List, [], ◌∷◌, ◌++◌, Option, none, some, Bytes,
  All, All-append, str_eq, inl, inr, ◌⊎◌, if◌then◌else◌,
}
use umsftpd.Paths.{slash}
use umsftpd.Paths.Names.{IsName, render, show}
use umsftpd.Paths.Buffer.{show_snoc, render_snoc}
use umsftpd.Paths.Split.{branch, prefixes}
use umsftpd.Vfs.{Vfs, has_flag, find_inode}
use umsftpd.Vfs.Table.{Entry, or_else}
use umsftpd.Vfs.Lookup.{apply_flags}
use umsftpd.Vfs.Lookup.Deepest.{flags_at, flags_along}
use umsftpd.Vfs.Insert.Step.{new_entry}
use umsftpd.Vfs.Insert.Grown.{grown}
use umsftpd.Shell.Program.Table.{
  IsProgram, Named, incoming, read_only, mounted_map, with_mount, with_mounts,
}
use umsftpd.Vfs.{flag_allow_symlinks}
use umsftpd.Shell.Program.Guarded.{
  flags_entry, guarded_map, writable_entry, IsReadOnly, found_flags,
}

-- No flag but the one for read-only access.
abbrev IsLow : ℕ → Type 0
IsLow f = (f ≡ 0) ⊎ (f ≡ 1)

-- An entry that leaves it at that.
abbrev StaysLow : Option Entry → Type 0
StaysLow o = IsLow (flags_entry o 0) × IsLow (flags_entry o 1)

none-StaysLow : StaysLow none
none-StaysLow = (inl refl, inr refl)

or_else-StaysLow : (x y : Option Entry) → StaysLow x → StaysLow y → StaysLow (or_else x y)
or_else-StaysLow none y h k = k
or_else-StaysLow (some x) y h k = h

grown-StaysLow :
    (cs : List Bytes) (x : Entry) (es : List Bytes) → StaysLow (some x) → StaysLow (grown cs x es)
unfolding apply_flags
grown-StaysLow [] x [] h = h
grown-StaysLow [] x (e ∷ es) h = none-StaysLow
grown-StaysLow (c ∷ cs) x [] h = (inl refl, inr refl)
grown-StaysLow (c ∷ cs) x (e ∷ es) h = by_name (str_eq c e) (grown-StaysLow cs x es h)
  where
    by_name : (b : Bool) → StaysLow (grown cs x es) → StaysLow (if b then grown cs x es else none)
    by_name true k = k
    by_name false k = none-StaysLow

new_entry-StaysLow : (n : Named) → IsReadOnly n → StaysLow (some (new_entry n.target n.set n.reset))
unfolding apply_flags
new_entry-StaysLow n (e, f) = (
  inr (ap (λ s. apply_flags 0 s n.reset) e ∙ ap (apply_flags 0 1) f),
  inr (ap (λ s. apply_flags 1 s n.reset) e ∙ ap (apply_flags 1 1) f),
)

with_mounts-StaysLow :
    (e : List Bytes → Option Entry) (ns : List Named) (es : List Bytes)
    → All IsReadOnly ns
    → StaysLow (e es)
    → StaysLow (with_mounts e ns es)
with_mounts-StaysLow e [] es h k = k
with_mounts-StaysLow e (n ∷ ns) es (r, h) k =
    let x = new_entry n.target n.set n.reset in
    with_mounts-StaysLow (with_mount e n) ns es h (
      or_else-StaysLow (e es) (grown n.names x es) k
        (grown-StaysLow n.names x es (new_entry-StaysLow n r)))

writable_entry-StaysLow : StaysLow (some writable_entry)
unfolding apply_flags
writable_entry-StaysLow = (inl refl, inl refl)

mounted_map-StaysLow : (es : List Bytes) → StaysLow (mounted_map es)
mounted_map-StaysLow es =
    or_else-StaysLow (guarded_map es) (grown (incoming ∷ []) writable_entry es)
      (with_mounts-StaysLow (λ es. none) read_only es
        (
          (refl, refl),
          ((refl, refl), ((refl, refl), ((refl, refl), ((refl, refl), ((refl, refl), tt))))),
        )
        none-StaysLow)
      (grown-StaysLow (incoming ∷ []) writable_entry es writable_entry-StaysLow)

by_flags : (o : Option Entry) (f : ℕ) → StaysLow o → IsLow f → IsLow (flags_entry o f)
by_flags o f (zeroed, one) (inl e) = subst (λ g. IsLow (flags_entry o g)) (sym e) zeroed
by_flags o f (zeroed, one) (inr e) = subst (λ g. IsLow (flags_entry o g)) (sym e) one

module _ (vfs : Vfs) (p : IsProgram vfs) where
  flags_at-IsLow :
      (es : List Bytes) (f : ℕ)
      → All IsName es
      → IsLow f
      → IsLow (flags_at vfs (find_inode vfs (show es)) f)
  flags_at-IsLow es f h l =
      subst IsLow (sym (found_flags vfs p es f h))
        (by_flags (mounted_map es) f (mounted_map-StaysLow es) l)

  branch-IsLow :
      (ps : List Bytes) (c : Bytes) (cs : List Bytes) (f : ℕ)
      → All IsName ps
      → All IsName (c ∷ cs)
      → IsLow f
      → IsLow (flags_along vfs (branch (render ps) c cs) f)
  unfolding flags_along
  branch-IsLow ps c [] f k h l =
      subst (λ s. IsLow (flags_at vfs (find_inode vfs s) f)) (show_snoc ps c)
        (flags_at-IsLow (ps ++ c ∷ []) f (All-append IsName ps (c ∷ []) k (h.0, tt)) l)
  branch-IsLow ps c (d ∷ cs) f k h l =
      let names = All-append IsName ps (c ∷ []) k (h.0, tt) in
      let here = flags_at vfs (find_inode vfs (render ps ++ slash ∷ c)) f in
      let low : IsLow here =
        subst (λ s. IsLow (flags_at vfs (find_inode vfs s) f)) (show_snoc ps c)
          (flags_at-IsLow (ps ++ c ∷ []) f names l) in
      subst (λ s. IsLow (flags_along vfs (branch s d cs) here)) (render_snoc ps c)
        (branch-IsLow (ps ++ c ∷ []) d cs here names h.1 low)

  flags_along-IsLow :
      (cs : List Bytes) → All IsName cs → IsLow (flags_along vfs (prefixes cs) vfs.base_flags)
  unfolding flags_along
  flags_along-IsLow [] h =
      subst (λ f. IsLow (flags_along vfs (prefixes []) f)) (sym p.no_flags)
        (flags_at-IsLow [] 0 tt (inl refl))
  flags_along-IsLow (c ∷ cs) h =
      subst (λ f. IsLow (flags_along vfs (prefixes (c ∷ cs)) f)) (sym p.no_flags)
        (branch-IsLow [] c cs (flags_at vfs (find_inode vfs (show [])) 0) tt h
          (flags_at-IsLow [] 0 tt (inl refl)))

  -- The flags of a path do not allow symbolic links.
  pub links_refused :
      (cs : List Bytes)
      → All IsName cs
      → has_flag (flags_along vfs (prefixes cs) vfs.base_flags) flag_allow_symlinks ≡ false
  links_refused cs h = elim (flags_along-IsLow cs h) [
    | inl e ↦ ap (λ f. has_flag f flag_allow_symlinks) e
    | inr e ↦ ap (λ f. has_flag f flag_allow_symlinks) e
  ]
