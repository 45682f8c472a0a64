-- ===== src/Vfs/Node/Fits.antt =====
-- What a caller of `vfs_open_node` (vfs.c) can rely on, and its parts that establish it.
use mathlib.Core.Path.{subst}
use umsftpd.Prelude.{
  ℕ, ◌≤◌, ◌≡◌, ◌≢◌, refl, ap, ◌∙◌, ◌⊎◌, inl, inr, Bool, true, false, not, ◌&&◌, List, [], ◌∷◌, ◌++◌,
  Option, none, some, Bytes, All, arith, length, if◌then◌else◌, Outcome, done, ◌>>=◌, Bool-cases,
  if-cases,
}
use umsftpd.Paths.Names.{IsName, IsClean, render, show}
use umsftpd.Paths.Checks.{LstatResult, path_contains_hidden, path_contains_symlink}
use umsftpd.Paths.Split.{prefixes}
use umsftpd.Vfs.{
  set_error, has_flag, flag_filter_all, flag_filter_hidden, flag_allow_symlinks, Inode, Vfs, Memory,
  Site, InternalError, find_inode, target_length,
}
use umsftpd.Vfs.Table.{found-IsNode}
use umsftpd.Vfs.Insert.Step.{IsTable}
use umsftpd.Vfs.Lookup.{LookupResult}
use umsftpd.Vfs.Lookup.Deepest.{deepest, deepest-MountedAbove, flags_along}
use umsftpd.Vfs.Node.{VfsError, Handle, Opened, map_below, make_handle, open_mapped}
use umsftpd.Vfs.Node.Mapped.{mapped_rest, map_below-show, map_below_no_memory, length-show}

-- The mapped path lies in the target of the deepest inode with a target on the way to the virtual path,
-- and there is none if no inode on the way has a target.
abbrev pub InJail : Vfs → List Bytes → Option Bytes → Type 0
InJail vfs cs none = deepest vfs (prefixes cs) ≡ none
InJail vfs cs (some mapped) =
    (ps : List Bytes) × (rest : List Bytes) × (m : Inode) × (t : Bytes) × (cs ≡ ps ++ rest)
    × (find_inode vfs (show ps) ≡ some m)
    × (m.target_path ≡ some t)
    × (mapped ≡ t ++ mapped_rest ps rest)
    × (deepest vfs (prefixes cs) ≡ some m)

-- The flags of a handle are those that the inodes on the way to its path leave, and the filters among
-- them let the path through; its inode is the one at its path, if there is one.
abbrev pub Allowed : Vfs → List Bytes → Handle → Type 0
Allowed vfs cs h =
    (h.flags ≡ flags_along vfs (prefixes cs) vfs.base_flags)
    × (has_flag h.flags flag_filter_all ≡ false)
    × ((has_flag h.flags flag_filter_hidden && path_contains_hidden (show cs)) ≡ false)
    × (h.inode ≡ find_inode vfs (show cs))

-- The flags allow symbolic links, or no link was found on the way to the mapped path, and each part of it
-- up to the first that does not exist could be examined.
abbrev pub LinksChecked : (Bytes → LstatResult) → ℕ → Option Bytes → Type 0
LinksChecked lstat flags none = Unit
LinksChecked lstat flags (some mapped) =
    (has_flag flags flag_allow_symlinks ≡ true)
    ⊎ (((path_contains_symlink lstat mapped).critical_error ≡ false)
        × ((path_contains_symlink lstat mapped).contains_symlink ≡ false))

-- Without a handle at most the error code changes. A handle is returned with `VFS_OK` alone, and then the
-- state is as before, the virtual path is one of clean names that the filters let through, and the mapped
-- path lies in a mounted tree and was checked for links.
abbrev pub Fits : (Bytes → LstatResult) → Vfs → Opened → Type 0
Fits lstat vfs (vfs', result, none) =
    (vfs' ≡ set_error vfs vfs'.error_code) × (result ≢ VfsError.ok)
Fits lstat vfs (vfs', result, some h) =
    (result ≡ VfsError.ok)
    × (vfs' ≡ vfs)
    × ((cs : List Bytes) × All IsClean cs
        × (h.virtual_path ≡ show cs)
        × Allowed vfs cs h
        × InJail vfs cs h.mapped_path
        × LinksChecked lstat h.flags h.mapped_path)

abbrev pub Settles : (Bytes → LstatResult) → Vfs → Outcome Opened → Type 0
Settles lstat vfs result = (r : Opened) × (result ≡ done r) × Fits lstat vfs r

pub Settles-if :
    (lstat : Bytes → LstatResult) (vfs : Vfs) (b : Bool) {x y : Outcome Opened}
    → (b ≡ true → Settles lstat vfs x)
    → (b ≡ false → Settles lstat vfs y)
    → Settles lstat vfs (if b then x else y)
Settles-if lstat vfs true p q = p refl
Settles-if lstat vfs false p q = q refl

pub Settles-bind :
    {A : Type 0} (lstat : Bytes → LstatResult) (vfs : Vfs) (x : Outcome A) (a : A)
    (k : A → Outcome Opened)
    → x ≡ done a
    → Settles lstat vfs (k a)
    → Settles lstat vfs (x >>= k)
Settles-bind lstat vfs x a k e (r, q, f) = (r, ap (λ y. y >>= k) e ∙ q, f)

allowed_links : (b : Bool) → not b ≡ false → b ≡ true
allowed_links true e = refl
allowed_links false e = absurd (let both : true ≡ false = e in cc)

pub open_mapped-Fits :
    (lstat : Bytes → LstatResult) (vfs : Vfs) (l : LookupResult) (cs : List Bytes) (mapped : Bytes)
    → (LinksChecked lstat l.flags (some mapped)
        → Fits lstat vfs (vfs, VfsError.ok, some (make_handle l (show cs) (some mapped))))
    → Fits lstat vfs (open_mapped lstat vfs l (show cs) (some mapped))
unfolding open_mapped
open_mapped-Fits lstat vfs l cs mapped h =
    let symlink = path_contains_symlink lstat mapped in
    let opened : Opened = (vfs, VfsError.ok, some (make_handle l (show cs) (some mapped))) in
    let absent : Opened = (vfs, VfsError.no_such_file_or_directory, none) in
    let failed : Opened = (vfs, VfsError.internal_error, none) in
    let inner = if symlink.contains_symlink then absent else opened in
    if-cases (Fits lstat vfs) (not (has_flag l.flags flag_allow_symlinks))
      {x = if symlink.critical_error then failed else inner} {y = opened}
      (λ _.
        if-cases (Fits lstat vfs) symlink.critical_error {x = failed} {y = inner}
          (λ _. (refl, λ e. cc))
          (λ examined.
            if-cases (Fits lstat vfs) symlink.contains_symlink {x = absent} {y = opened}
              (λ _. (refl, λ e. cc)) (λ link_free. h (inr (examined, link_free)))))
      (λ e. h (inl (allowed_links (has_flag l.flags flag_allow_symlinks) e)))

names_front : (ps rest : List Bytes) → All IsClean (ps ++ rest) → All IsName ps
names_front [] rest k = tt
names_front (p ∷ ps) rest k = (k.0.0, names_front ps rest k.1)

-- The result of `vfs_map_path` is the mapped path, or NULL for want of memory.
pub map_below_cases :
    (mem : Memory) (vfs : Vfs) (cs : List Bytes) (m : Inode)
    → IsTable vfs.inodes
    → All IsClean cs
    → deepest vfs (prefixes cs) ≡ some m
    → ((mapped : Bytes) × (map_below mem vfs m (show cs) ≡ done (vfs, some mapped))
        × InJail vfs cs (some mapped))
      ⊎ (map_below mem vfs m (show cs) ≡ done (set_error vfs InternalError.out_of_memory, none))
map_below_cases mem vfs cs m table clean last =
    let (ps, rest, e, f, (t, et)) = deepest-MountedAbove vfs cs m last in
    let (v, ev) =
      found-IsNode vfs.inodes ps m table (names_front ps rest (subst (All IsClean) e clean))
        (unfold find_inode in f) in
    let vl : m.vlen ≡ length (render ps) =
      v.measured ∙ ap length v.path ∙ ap (λ qs. length (render qs)) ev in
    let tl : m.tlen ≡ length t = v.target_measured ∙ ap target_length et in
    elim (Bool-cases (mem Site.map_buffer (show (ps ++ rest)))) [
      | inl g ↦ inl (
        t ++ mapped_rest ps rest,
        ap (λ qs. map_below mem vfs m (show qs)) e ∙ map_below-show mem vfs m t ps rest g et tl vl,
        (ps, rest, m, t, e, f, et, refl, last),
      )
      | inr g ↦ inr (
          ap (λ qs. map_below mem vfs m (show qs)) e
          ∙ map_below_no_memory mem vfs m (show (ps ++ rest)) g (at_most vl (length-show ps rest)))
    ]
  where
    at_most : {a b c : ℕ} → a ≡ b → b ≤ c → a ≤ c
    at_most p q = omega arith
