-- ===== src/Vfs/Node/Jail.antt =====
-- `vfs_open_node` (vfs.c) never leaves the tree that is mounted.
use umsftpd.Prelude.{
  ℕ, ◌≡◌, refl, ap, ◌∙◌, inl, inr, false, not, ◌&&◌, List, Option, none, some, Bytes, All, arith,
  if◌then◌else◌, done, ◌>>=◌, Bool-cases, leb,
}
use umsftpd.Paths.{sanitize_path}
use umsftpd.Paths.Names.{is_absolute_path-show, IsClean, render, show}
use umsftpd.Paths.Sanitize.{IsClean→IsName}
use umsftpd.Paths.Checks.{LstatResult, path_contains_hidden}
use umsftpd.Paths.Split.{prefixes}
use umsftpd.Vfs.{
  set_error, has_flag, flag_filter_all, flag_filter_hidden, Inode, Vfs, Memory, Site, InternalError,
  find_inode,
}
use umsftpd.Vfs.Insert.Step.{IsTable}
use umsftpd.Vfs.Lookup.{LookupResult, lookup}
use umsftpd.Vfs.Lookup.Deepest.{deepest, lookup-show, flags_along}
use umsftpd.Vfs.Node.{
  VfsError, is_null, map_below, map_path, make_handle, open_mapped, open_found, open_sanitized,
  open_node,
}
use umsftpd.Vfs.Node.Mapped.{IsVfs, CleanOrNull, sanitize_path_clean}
use umsftpd.Vfs.Node.Fits.{
  Allowed, Settles, Settles-if, Settles-bind, open_mapped-Fits, map_below_cases,
}

map_path_run :
    (mem : Memory) (vfs : Vfs) (flags : ℕ) (i : Option Inode) (m : Inode) (cs : List Bytes)
    → map_path mem vfs
        (some (record { flags = flags; inode = i; mountpoint = some m }))
        (some (show cs))
      ≡ map_below mem vfs m (show cs)
unfolding map_path
map_path_run mem vfs flags i m cs = rw (is_absolute_path-show cs) refl

-- What `vfs_open_node` does behind the filters.
open_mounted-Settles :
    (mem : Memory) (lstat : Bytes → LstatResult) (vfs : Vfs) (cs : List Bytes) (flags : ℕ)
    (i : Option Inode) (m : Inode)
    → IsTable vfs.inodes
    → All IsClean cs
    → deepest vfs (prefixes cs) ≡ some m
    → ((p : Option Bytes)
        → Allowed vfs cs
            (make_handle (record { flags = flags; inode = i; mountpoint = some m }) (show cs) p))
    → Settles lstat vfs (do
      (vfs', mapped) ←
          map_path mem vfs
            (some (record { flags = flags; inode = i; mountpoint = some m }))
            (some (show cs))
      done (
          open_mapped lstat vfs'
            (record { flags = flags; inode = i; mountpoint = some m })
            (show cs)
            mapped))
open_mounted-Settles mem lstat vfs cs flags i m table clean above allowed =
    let l : LookupResult = record { flags = flags; inode = i; mountpoint = some m } in
    let run = map_path_run mem vfs flags i m cs in
    elim (map_below_cases mem vfs cs m table clean above) [
      | inl (mapped, e, j) ↦
          Settles-bind lstat vfs (map_path mem vfs (some l) (some (show cs))) (vfs, some mapped)
            (λ r. done (open_mapped lstat r.0 l (show cs) r.1)) (run ∙ e)
            (
              open_mapped lstat vfs l (show cs) (some mapped),
              refl,
              open_mapped-Fits lstat vfs l cs mapped
                  (λ links. (refl, refl, (cs, clean, refl, allowed (some mapped), j, links))),
            )
      | inr e ↦
          let vfs' = set_error vfs InternalError.out_of_memory in
          Settles-bind lstat vfs (map_path mem vfs (some l) (some (show cs))) (vfs', none)
            (λ r. done (open_mapped lstat r.0 l (show cs) r.1)) (run ∙ e)
            (open_mapped lstat vfs' l (show cs) none, refl, unfold open_mapped in (refl, λ q. cc))
    ]

-- What `vfs_open_node` does behind the filters.
behind_filters-Settles :
    (mem : Memory) (lstat : Bytes → LstatResult) (vfs : Vfs) (cs : List Bytes) (flags : ℕ)
    (i o : Option Inode)
    → IsTable vfs.inodes
    → All IsClean cs
    → deepest vfs (prefixes cs) ≡ o
    → ((p : Option Bytes)
        → Allowed vfs cs
            (make_handle (record { flags = flags; inode = i; mountpoint = o }) (show cs) p))
    → Settles lstat vfs (
        let l : LookupResult = record { flags = flags; inode = i; mountpoint = o } in
        if is_null i && is_null o
        then done (vfs, VfsError.no_such_file_or_directory, none)
        else if is_null o
        then done (vfs, VfsError.ok, some (make_handle l (show cs) none))
        else (do
          (vfs', mapped) ← map_path mem vfs (some l) (some (show cs))
          done (open_mapped lstat vfs' l (show cs) mapped)))
behind_filters-Settles mem lstat vfs cs flags none none table clean above allowed =
    ((vfs, VfsError.no_such_file_or_directory, none), refl, (refl, λ e. cc))
behind_filters-Settles mem lstat vfs cs flags (some n) none table clean above allowed = (
  (
    vfs,
    VfsError.ok,
    some (make_handle (record { flags = flags; inode = some n; mountpoint = none }) (show cs) none),
  ),
  refl,
  (refl, refl, (cs, clean, refl, allowed none, above, tt)),
)
behind_filters-Settles mem lstat vfs cs flags none (some m) table clean above allowed =
    open_mounted-Settles mem lstat vfs cs flags none m table clean above allowed
behind_filters-Settles mem lstat vfs cs flags (some n) (some m) table clean above allowed =
    open_mounted-Settles mem lstat vfs cs flags (some n) m table clean above allowed

open_found-Settles :
    (mem : Memory) (lstat : Bytes → LstatResult) (vfs : Vfs) (cs : List Bytes) (i o : Option Inode)
    → IsTable vfs.inodes
    → All IsClean cs
    → deepest vfs (prefixes cs) ≡ o
    → i ≡ find_inode vfs (show cs)
    → Settles lstat vfs (
        open_found mem lstat vfs (show cs) (
          some (record {
            flags = flags_along vfs (prefixes cs) vfs.base_flags;
            inode = i;
            mountpoint = o;
          })))
unfolding open_found
open_found-Settles mem lstat vfs cs i o table clean above at =
    let flags = flags_along vfs (prefixes cs) vfs.base_flags in
    Settles-if lstat vfs (has_flag flags flag_filter_all)
      (λ e. ((vfs, VfsError.no_such_file_or_directory, none), refl, (refl, λ q. cc)))
      (λ visible.
        Settles-if lstat vfs (has_flag flags flag_filter_hidden && path_contains_hidden (show cs))
          (λ e. ((vfs, VfsError.permission_denied, none), refl, (refl, λ q. cc)))
          (λ plain.
            behind_filters-Settles mem lstat vfs cs flags i o table clean above
              (λ p. (refl, visible, plain, at))))

lookup_not_frozen :
    (vfs : Vfs) (path : Bytes)
    → vfs.frozen ≡ false
    → lookup vfs path ≡ (record vfs { error_code = InternalError.inode_finalization_error }, none)
unfolding lookup
lookup_not_frozen vfs path e = ground arith

open_sanitized-Settles :
    (mem : Memory) (lstat : Bytes → LstatResult) (vfs : Vfs) (cs : List Bytes)
    → IsTable vfs.inodes
    → All IsClean cs
    → Settles lstat vfs (open_sanitized mem lstat vfs (some (show cs)))
unfolding open_sanitized
open_sanitized-Settles mem lstat vfs cs table clean = elim (Bool-cases vfs.frozen) [
  | inl f ↦
      let (r, e, h) =
        open_found-Settles mem lstat vfs cs (find_inode vfs (show cs)) (deepest vfs (prefixes cs))
          table clean refl refl in
      (
        r,
        ap (λ a. open_found mem lstat a.0 (show cs) a.1)
              (lookup-show vfs cs f (IsClean→IsName cs clean))
            ∙ e,
        h,
      )
  | inr f ↦ (
    (record vfs { error_code = InternalError.inode_lookup_error }, VfsError.internal_error, none),
    ap (λ a. open_found mem lstat a.0 (show cs) a.1) (lookup_not_frozen vfs (show cs) f)
        ∙ unfold open_found in refl,
    (refl, λ q. cc),
  )
]

open_clean :
    (mem : Memory) (lstat : Bytes → LstatResult) (vfs : Vfs) (path : Bytes) (v : IsVfs vfs)
    → CleanOrNull
        (mem Site.sanitize_buffer path)
        (sanitize_path (mem Site.sanitize_buffer path) (render v.cwd_names) path)
    → Settles lstat vfs (
        sanitize_path (mem Site.sanitize_buffer path) vfs.cwd_path path
        >>= open_sanitized mem lstat vfs)
open_clean mem lstat vfs path v r =
    let sanitized = λ (cwd : Bytes). sanitize_path (mem Site.sanitize_buffer path) cwd path in
    elim r [
      | inl (m, e) ↦
          Settles-bind lstat vfs (sanitized vfs.cwd_path) none (open_sanitized mem lstat vfs)
            (ap sanitized v.cwd ∙ e)
            (
              (
                record vfs { error_code = InternalError.sanitize_path_error },
                VfsError.internal_error,
                none,
              ),
              unfold open_sanitized in refl,
              (refl, λ q. cc),
            )
      | inr (cs, clean, e) ↦
          Settles-bind lstat vfs (sanitized vfs.cwd_path) (some (show cs))
            (open_sanitized mem lstat vfs) (ap sanitized v.cwd ∙ e)
            (open_sanitized-Settles mem lstat vfs cs v.table clean)
    ]

-- In a well-formed file system, opening a node always returns, whatever path the client gives and
-- whatever memory and `lstat` do. Without a handle the result is an error, and at most the error code
-- of the state changes. A handle is returned with `VFS_OK` and with no other result, and
-- then the state is as before, the path of the handle is one of clean names (no empty name, no `.`,
-- no `..`), the flags of the handle are those of the inodes on the way to it, the filters among them
-- let the path through, the inode of the handle is the one at its path, if there is one, and the mapped
-- path is the target of the deepest inode with a target on the way, followed by the names below that
-- inode; there is none where no inode on the way has a target. Unless the flags allow symbolic links,
-- `lstat` has examined that path, as `path_contains_symlink` does, and shows no link on it.
pub open_node_jailed :
    (mem : Memory) (lstat : Bytes → LstatResult) (vfs : Vfs) (path : Option Bytes)
    → IsVfs vfs
    → Settles lstat vfs (open_node mem lstat vfs path)
unfolding open_node
open_node_jailed mem lstat vfs none v = (
  (record vfs { error_code = InternalError.illegal_path }, VfsError.internal_error, none),
  refl,
  (refl, λ q. cc),
)
open_node_jailed mem lstat vfs (some path) v =
    Settles-if lstat vfs (leb vfs.max_count vfs.current_count)
      (λ e. ((vfs, VfsError.out_of_handles, none), refl, (refl, λ q. cc)))
      (λ e.
        Settles-if lstat vfs (not (mem Site.handle_memory path))
          (λ e. (
            (
              record vfs { error_code = InternalError.out_of_memory },
              VfsError.internal_error,
              none,
            ),
            refl,
            (refl, λ q. cc),
          ))
          (λ e.
            open_clean mem lstat vfs path v
              (sanitize_path_clean (mem Site.sanitize_buffer path) v.cwd_names path)))
