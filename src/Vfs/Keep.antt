-- ===== src/Vfs/Keep.antt =====
-- Every operation of vfs.c on a well-formed file system leaves a well-formed one.
use mathlib.Core.List.{Permᴰ}
use mathlib.Core.Option
use mathlib.Core.List.Permᴰ.{nil, cons, swap, trans}
use mathlib.Core.Path.{subst}
use umsftpd.Prelude.{
  codes, ℕ, ◌≡◌, ◌≢◌, refl, sym, ap, ◌∙◌, Bool, true, false, not, List, [], Option, none, some,
  Bytes, All, arith, length, ltb, if◌then◌else◌, if-cases, Bool-cases, Option-cases, inl, inr,
  Outcome, done, ◌>>=◌,
}
use umsftpd.Paths.Names.{is_absolute_path-show, IsName, IsClean, render, show}
use umsftpd.Paths.Sanitize.{IsClean→IsName}
use umsftpd.Paths.Checks.{LstatResult}
use umsftpd.Vfs.{
  set_error, zeroed, Inode, Vfs, Memory, Site, InternalError, set_cwd, init, find_inode,
}
use umsftpd.Vfs.Table.{IsNode, entries, entry_of}
use umsftpd.Vfs.Insert.{add_inode, given_relative}
use umsftpd.Vfs.Insert.Step.{IsTable, Granted}
use umsftpd.Vfs.Insert.Refine.{add_inode_refines}
use umsftpd.Vfs.Lookup.{freeze_inodes, freeze_now}
use umsftpd.Vfs.Cwd.{set_cwd-show}
use umsftpd.Vfs.System.{StatResult, stat_failed, stat_done, is_ok, s_isdir, with_handle}
use umsftpd.Vfs.Handles.{chdir, chdir_to}
use umsftpd.Vfs.Node.{VfsError, Opened}
use umsftpd.Vfs.Node.Mapped.{IsVfs}
use umsftpd.Vfs.Node.Fits.{Fits}
use umsftpd.Vfs.Node.Jail.{open_node_jailed}

-- A rearrangement of inodes that are well formed.
pub IsTable-perm : {xs ys : List Inode} → Permᴰ xs ys → IsTable ys → IsTable xs
IsTable-perm nil h = tt
IsTable-perm (cons e p) h = (subst IsNode (sym e) h.0, IsTable-perm p h.1)
IsTable-perm (swap e f) h = (subst IsNode (sym e) h.1.0, (subst IsNode (sym f) h.0, h.1.1))
IsTable-perm (trans p q) h = IsTable-perm p (IsTable-perm q h)

-- A sorting routine gives back the inodes in another order.
abbrev pub Sorts : (List Inode → List Inode) → Type 0
Sorts qsort = (ns : List Inode) → Permᴰ (qsort ns) ns

-- What `IsVfs` reads of a state.
pub carried :
    (vfs vfs' : Vfs) → IsTable vfs'.inodes → vfs'.cwd_path ≡ vfs.cwd_path → IsVfs vfs → IsVfs vfs'
carried vfs vfs' t e v = record {
  table = t;
  cwd_names = v.cwd_names;
  cwd_clean = v.cwd_clean;
  cwd = e ∙ v.cwd;
}

freeze_now-IsVfs :
    (qsort : List Inode → List Inode) (vfs : Vfs)
    → Sorts qsort
    → IsVfs vfs
    → IsVfs (freeze_now qsort vfs)
unfolding freeze_now
freeze_now-IsVfs qsort vfs s v =
    carried vfs (freeze_now qsort vfs)
      (if-cases IsTable (ltb 0 (length vfs.inodes)) (λ e. IsTable-perm (s vfs.inodes) v.table)
        (λ e. v.table))
      refl v

-- Freezing keeps a file system well formed, whatever order the sorting leaves.
pub freeze-IsVfs :
    (qsort : List Inode → List Inode) (vfs : Vfs)
    → Sorts qsort
    → IsVfs vfs
    → IsVfs (freeze_inodes qsort vfs)
unfolding freeze_inodes
freeze-IsVfs qsort vfs s v =
    let vfs' : Vfs = record vfs { error_code = InternalError.inode_finalization_error } in
    freeze_now-IsVfs qsort (if vfs.frozen then vfs' else vfs) s (
      if-cases IsVfs vfs.frozen {x = vfs'} {y = vfs} (λ e. carried vfs vfs' v.table refl v)
        (λ e. v))

moved-IsVfs :
    (mem : Memory) (vfs : Vfs) (cs : List Bytes)
    → All IsClean cs
    → IsVfs vfs
    → IsVfs (set_cwd mem vfs (show cs)).0
moved-IsVfs mem vfs cs h v =
    let (i, f, c, b) = set_cwd-show mem vfs cs (IsClean→IsName cs h) in
    let path = λ (success : Bool). if success then render cs else vfs.cwd_path in
    let t : IsTable (set_cwd mem vfs (show cs)).0.inodes = subst IsTable (sym i) v.table in
    elim (Bool-cases (set_cwd mem vfs (show cs)).1) [
      | inl e ↦ record { table = t; cwd_names = cs; cwd_clean = h; cwd = c ∙ ap path e }
      | inr e ↦ carried vfs (set_cwd mem vfs (show cs)).0 t (c ∙ ap path e) v
    ]

zeroed-IsVfs : IsVfs zeroed
zeroed-IsVfs = record { table = tt; cwd_names = []; cwd_clean = tt; cwd = refl }

-- `vfs_init` makes a well-formed file system, where it makes one.
pub init-IsVfs : (mem : Memory) (vfs : Vfs) → init mem ≡ some vfs → IsVfs vfs
unfolding init
init-IsVfs mem vfs e =
    let moved = set_cwd mem zeroed (codes "/") in
    let made : Vfs = record moved.0 { max_count = 10 } in
    let made-IsVfs : IsVfs made =
      let v = moved-IsVfs mem zeroed [] tt zeroed-IsVfs in carried moved.0 made v.table refl v in
    if-cases (λ o. o ≡ some vfs → IsVfs vfs) (not (mem Site.vfs_memory [])) {x = none}
      {y = if not moved.1 then none else some made} (λ _ q. cc)
      (λ _.
        if-cases (λ o. o ≡ some vfs → IsVfs vfs) (not moved.1) {x = none} {y = some made}
          (λ _ q. cc) (λ _ q. subst IsVfs (ap (from_some made) q) made-IsVfs))
      e
  where
    from_some : Vfs → Option Vfs → Vfs
    from_some d none = d
    from_some d (some x) = x

pub is_ok-false : (e : VfsError) → e ≢ VfsError.ok → is_ok e ≡ false
is_ok-false e h = ground arith

abbrev pub Keeps : Outcome (Vfs × VfsError) → Type 0
Keeps result = (vfs' : Vfs) × (code : VfsError) × (result ≡ done (vfs', code)) × IsVfs vfs'

chdir_to-IsVfs :
    (mem : Memory) (vfs : Vfs) (cs : List Bytes) (i : Option Inode) (r : StatResult)
    → All IsClean cs
    → IsVfs vfs
    → IsVfs (chdir_to mem vfs (show cs) i r).0
unfolding chdir_to
chdir_to-IsVfs mem vfs cs (some n) r h v = moved-IsVfs mem vfs cs h v
chdir_to-IsVfs mem vfs cs none (stat_failed e) h v = v
chdir_to-IsVfs mem vfs cs none (stat_done s) h v =
    let moved = set_cwd mem vfs (show cs) in
    if-cases (λ (r : Vfs × VfsError). IsVfs r.0) (not (s_isdir s))
      {x = (vfs, VfsError.not_a_directory)}
      {y = (moved.0, if not moved.1 then VfsError.internal_error else VfsError.ok)} (λ _. v)
      (λ _. moved-IsVfs mem vfs cs h v)

pub error_only : (vfs vfs' : Vfs) → vfs' ≡ set_error vfs vfs'.error_code → IsVfs vfs → IsVfs vfs'
error_only vfs vfs' e v =
    carried vfs vfs' (subst IsTable (sym (ap (λ s. s.inodes) e)) v.table) (ap (λ s. s.cwd_path) e) v

chdir_behind :
    (mem : Memory) (lstat : Bytes → LstatResult) (stat : Option Bytes → StatResult) (vfs : Vfs)
    (opened : Opened)
    → Fits lstat vfs opened
    → IsVfs vfs
    → Keeps (
        with_handle opened
          (λ vfs' result. (vfs', result))
          (λ vfs' handle.
            done (chdir_to mem vfs' handle.virtual_path handle.inode (stat handle.mapped_path))))
chdir_behind mem lstat stat vfs (vfs', result, none) (e, failed) v =
    (vfs', result, rw (is_ok-false result failed) refl, error_only vfs vfs' e v)
chdir_behind mem lstat stat vfs (vfs', result, some handle) (ok, same, (cs, clean, path, _, _, _))
      v =
    let r = chdir_to mem vfs' handle.virtual_path handle.inode (stat handle.mapped_path) in
    (
      r.0,
      r.1,
      rw ok refl,
      subst (λ p. IsVfs (chdir_to mem vfs' p handle.inode (stat handle.mapped_path)).0) (sym path)
          (chdir_to-IsVfs mem vfs' cs handle.inode (stat handle.mapped_path) clean
            (subst IsVfs (sym same) v)),
    )

-- In a well-formed file system, changing the directory always returns, whatever path the client gives
-- and whatever memory, `lstat` and `stat` do, and the file system stays well formed.
pub chdir-IsVfs :
    (mem : Memory) (lstat : Bytes → LstatResult) (stat : Option Bytes → StatResult) (vfs : Vfs)
    (path : Option Bytes)
    → IsVfs vfs
    → Keeps (chdir mem lstat stat vfs path)
unfolding chdir
chdir-IsVfs mem lstat stat vfs path v =
    let (opened, e, f) = open_node_jailed mem lstat vfs path v in
    let (vfs', code, r, v') = chdir_behind mem lstat stat vfs opened f v in
    (
      vfs',
      code,
      ap
            (λ o. o >>= (λ x.
              with_handle x (λ vfs' result. (vfs', result))
                (λ vfs' handle.
                  done (
                    chdir_to mem vfs' handle.virtual_path handle.inode (stat handle.mapped_path)))))
            e
          ∙ r,
      v',
    )

add_relative :
    (mem : Memory) (vfs : Vfs) (cs : List Bytes) (target : Option Bytes) (set reset : ℕ)
    → given_relative target ≡ true
    → add_inode mem vfs (show cs) target set reset
      ≡ done (set_error vfs InternalError.add_inode_parameter_error, false)
unfolding add_inode
add_relative mem vfs cs target set reset rel = rw (is_absolute_path-show cs, rel) refl

add_duplicate :
    (mem : Memory) (vfs : Vfs) (cs : List Bytes) (target : Option Bytes) (set reset : ℕ) (n : Inode)
    → given_relative target ≡ false
    → find_inode vfs (show cs) ≡ some n
    → add_inode mem vfs (show cs) target set reset
      ≡ done (set_error vfs InternalError.add_inode_already_exists, false)
unfolding add_inode
add_duplicate mem vfs cs target set reset n rel f = rw (is_absolute_path-show cs, rel, f) refl

-- With memory, adding an inode at a path of names always returns, and the file system stays well
-- formed.
pub add_inode-IsVfs :
    (mem : Memory) (vfs : Vfs) (cs : List Bytes) (target : Option Bytes) (set reset : ℕ)
    → Granted mem
    → All IsName cs
    → IsVfs vfs
    → (vfs' : Vfs) × (success : Bool) × (add_inode mem vfs (show cs) target set reset
        ≡ done (vfs', success))
      × IsVfs vfs'
add_inode-IsVfs mem vfs cs target set reset g h v =
    let failed = λ (code : InternalError). carried vfs (set_error vfs code) v.table refl v in
    elim (Bool-cases (given_relative target)) [
      | inl rel ↦ (
        set_error vfs InternalError.add_inode_parameter_error,
        false,
        add_relative mem vfs cs target set reset rel,
        failed InternalError.add_inode_parameter_error,
      )
      | inr rel ↦ elim (Option-cases (find_inode vfs (show cs))) [
        | inr (n, f) ↦ (
          set_error vfs InternalError.add_inode_already_exists,
          false,
          add_duplicate mem vfs cs target set reset n rel f,
          failed InternalError.add_inode_already_exists,
        )
        | inl f ↦
            let free : entries vfs.inodes cs ≡ none =
              unfold find_inode in ap (Option.map entry_of) f in
            let (ns, r, t, _) =
              add_inode_refines mem vfs cs target set reset g v.table h rel free in
            (record vfs { inodes = ns }, true, r, carried vfs (record vfs { inodes = ns }) t refl v)
      ]
    ]
