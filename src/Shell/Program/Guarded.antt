-- ===== src/Shell/Program/Guarded.antt =====
-- What the program of vfsdebug.c lets its user write: the flags and the mountpoint of a path.
use mathlib.Core.Option
use mathlib.Core.Path.{subst}
use umsftpd.Prelude.{
  ℕ, ◌≡◌, refl, sym, ap, ◌∙◌, Bool, true, false, List, [], ◌∷◌, ◌++◌, append_assoc, Option, none,
  some, Bytes, All, All-append, str_eq, str_eq→eq, Bool-cases, inl, inr, if◌then◌else◌,
}
use umsftpd.Paths.{slash}
use umsftpd.Paths.Names.{IsName, render, show}
use umsftpd.Paths.Buffer.{show_snoc, render_snoc}
use umsftpd.Paths.Split.{branch, prefixes}
use umsftpd.Vfs.{Inode, Vfs, has_flag, flag_read_only, find_in, find_inode}
use umsftpd.Vfs.Table.{Entry, entry_of, or_else}
use umsftpd.Vfs.Lookup.{apply_flags}
use umsftpd.Vfs.Lookup.Deepest.{flags_at, flags_along}
use umsftpd.Vfs.Insert.Step.{new_entry}
use umsftpd.Vfs.Insert.Grown.{grown}
use umsftpd.Shell.Program.Table.{
  IsProgram, Named, incoming, read_only, writable, mounted_map, with_mount, with_mounts,
}

-- The flags behind an entry of the map.
abbrev pub flags_entry : Option Entry → ℕ → ℕ
flags_entry none flags = flags
flags_entry (some x) flags = apply_flags flags x.flags_set x.flags_reset

-- An entry that leaves the flag for read-only access alone.
abbrev IsQuiet : Option Entry → Type 0
IsQuiet o = flags_entry o 1 ≡ 1

or_else-IsQuiet : (x y : Option Entry) → IsQuiet x → IsQuiet y → IsQuiet (or_else x y)
or_else-IsQuiet none y h k = k
or_else-IsQuiet (some x) y h k = h

grown-IsQuiet :
    (cs : List Bytes) (x : Entry) (es : List Bytes) → IsQuiet (some x) → IsQuiet (grown cs x es)
unfolding apply_flags
grown-IsQuiet [] x [] h = h
grown-IsQuiet [] x (e ∷ es) h = refl
grown-IsQuiet (c ∷ cs) x [] h = refl
grown-IsQuiet (c ∷ cs) x (e ∷ es) h = by_name (str_eq c e) (grown-IsQuiet cs x es h)
  where
    by_name : (b : Bool) → IsQuiet (grown cs x es) → IsQuiet (if b then grown cs x es else none)
    by_name true k = k
    by_name false k = refl

abbrev pub IsReadOnly : Named → Type 0
IsReadOnly n = (n.set ≡ 1) × (n.reset ≡ 0)

new_entry-IsQuiet : (n : Named) → IsReadOnly n → IsQuiet (some (new_entry n.target n.set n.reset))
unfolding apply_flags
new_entry-IsQuiet n (e, f) = ap (λ s. apply_flags 1 s n.reset) e ∙ ap (apply_flags 1 1) f

with_mounts-IsQuiet :
    (e : List Bytes → Option Entry) (ns : List Named) (es : List Bytes)
    → All IsReadOnly ns
    → IsQuiet (e es)
    → IsQuiet (with_mounts e ns es)
with_mounts-IsQuiet e [] es h k = k
with_mounts-IsQuiet e (n ∷ ns) es (r, h) k =
    let x = new_entry n.target n.set n.reset in
    with_mounts-IsQuiet (with_mount e n) ns es h (
      or_else-IsQuiet (e es) (grown n.names x es) k
        (grown-IsQuiet n.names x es (new_entry-IsQuiet n r)))

abbrev pub guarded_map : List Bytes → Option Entry
guarded_map = with_mounts (λ es. none) read_only

guarded_map-IsQuiet : (es : List Bytes) → IsQuiet (guarded_map es)
guarded_map-IsQuiet es =
    with_mounts-IsQuiet (λ es. none) read_only es
      (
        (refl, refl),
        ((refl, refl), ((refl, refl), ((refl, refl), ((refl, refl), ((refl, refl), tt))))),
      )
      refl

abbrev pub writable_entry : Entry
writable_entry = new_entry writable.target 0 1

-- Outside of "/incoming", each entry leaves the flag alone.
mounted_map-IsQuiet :
    (c : Bytes) (es : List Bytes) → str_eq incoming c ≡ false → IsQuiet (mounted_map (c ∷ es))
mounted_map-IsQuiet c es h =
    or_else-IsQuiet (guarded_map (c ∷ es)) (grown (incoming ∷ []) writable_entry (c ∷ es))
      (guarded_map-IsQuiet (c ∷ es))
      (subst IsQuiet (sym (ap (λ b. if b then grown [] writable_entry es else none) h)) refl)

module _ (vfs : Vfs) (p : IsProgram vfs) where
  pub found_flags :
      (es : List Bytes) (flags : ℕ)
      → All IsName es
      → flags_at vfs (find_inode vfs (show es)) flags ≡ flags_entry (mounted_map es) flags
  unfolding find_inode
  found_flags es flags h =
      by_found (find_in vfs.inodes (show es)) ∙ ap (λ o. flags_entry o flags) (p.mounted es h)
    where
      by_found :
          (o : Option Inode) → flags_at vfs o flags ≡ flags_entry (Option.map entry_of o) flags
      by_found none = refl
      by_found (some n) = refl

  -- Along prefixes that leave the flag alone, it stays.
  quiet_along :
      (ps : List Bytes) (c : Bytes) (cs : List Bytes)
      → All IsName ps
      → All IsName (c ∷ cs)
      → ((es : List Bytes) → IsQuiet (mounted_map (ps ++ c ∷ es)))
      → flags_along vfs (branch (render ps) c cs) 1 ≡ 1
  unfolding flags_along
  quiet_along ps c [] k h q =
      ap (λ s. flags_at vfs (find_inode vfs s) 1) (sym (show_snoc ps c))
      ∙ found_flags (ps ++ c ∷ []) 1 (All-append IsName ps (c ∷ []) k (h.0, tt))
      ∙ q []
  quiet_along ps c (d ∷ cs) k h q =
      let names = All-append IsName ps (c ∷ []) k (h.0, tt) in
      let tail = branch (render ps ++ slash ∷ c) d cs in
      ap (λ s. flags_along vfs tail (flags_at vfs (find_inode vfs s) 1)) (sym (show_snoc ps c))
      ∙ ap (flags_along vfs tail) (found_flags (ps ++ c ∷ []) 1 names ∙ q [])
      ∙ ap (λ s. flags_along vfs (branch s d cs) 1) (sym (render_snoc ps c))
      ∙ quiet_along (ps ++ c ∷ []) d cs names h.1 (λ es.
        subst (λ qs. IsQuiet (mounted_map qs)) (sym (append_assoc ps (c ∷ []) (d ∷ es)))
          (q (d ∷ es)))

  -- A path that is not below "/incoming" is for reading only.
  pub flags_guarded :
      (cs : List Bytes)
      → All IsName cs
      → has_flag (flags_along vfs (prefixes cs) vfs.base_flags) flag_read_only ≡ false
      → (rest : List Bytes) × (cs ≡ incoming ∷ rest)
  unfolding flags_along apply_flags
  flags_guarded [] h w =
      let one : flags_along vfs (prefixes []) vfs.base_flags ≡ 1 =
        ap (flags_along vfs (prefixes [])) p.no_flags ∙ found_flags [] 0 tt in
      let no : true ≡ false = sym (ap (λ f. has_flag f flag_read_only) one) ∙ w in cc
  flags_guarded (c ∷ cs) h w = elim (Bool-cases (str_eq incoming c)) [
    | inl e ↦ (cs, ap (λ x. x ∷ cs) (sym (str_eq→eq incoming c e)))
    | inr e ↦
        let one : flags_along vfs (prefixes (c ∷ cs)) vfs.base_flags ≡ 1 =
          ap (flags_along vfs (prefixes (c ∷ cs))) p.no_flags
          ∙ ap (flags_along vfs (branch [] c cs)) (found_flags [] 0 tt)
          ∙ quiet_along [] c cs tt h (λ es. mounted_map-IsQuiet c es e) in
        let wrong : true ≡ false = sym (ap (λ f. has_flag f flag_read_only) one) ∙ w in
        absurd (let x : true ≡ false = wrong in cc)
  ]
