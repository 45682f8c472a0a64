-- ===== src/Vfs/Insert/Distinct.antt =====
-- Adding inodes to vfs.c leaves no two of the same path.
use mathlib.Core.Path.{subst}
use umsftpd.Prelude.{
  ℕ, ◌≡◌, ◌≢◌, refl, sym, Bool, true, false, not, List, [], ◌∷◌, ◌++◌, Option, none, some, Bytes,
  All, All-append, if-cases, inl, inr, Outcome, done, undefined,
}
use umsftpd.Paths.{slash, truncate_trailing_slash, is_absolute_path, path_split}
use umsftpd.Paths.Names.{IsName, render, show}
use umsftpd.Paths.Buffer.{show_snoc, render_snoc}
use umsftpd.Paths.Split.{branch, prefixes, run_until, path_split-show}
use umsftpd.Paths.Compare.{truncate-show}
use umsftpd.Vfs.{Inode, Vfs, Memory, InternalError, set_error, find_inode}
use umsftpd.Vfs.Insert.{
  add_single_inode, add_inode_splitter, enter_prefix, add_unless_found, add_inode, given_relative,
}
use umsftpd.Vfs.Unique.{
  IfDone, IfDone-bind, paths, IsDistinct, IsDistinct-snoc, Adds, add_single_inode-Adds,
  find_in-none,
}

-- Whatever memory is granted, the paths stay distinct.
abbrev HasDistinct : {A : Type 0} → Vfs × A → Type 0
HasDistinct r = IsDistinct (paths r.0.inodes)

Adds-IsDistinct :
    (ps : List Bytes) (p : Bytes) (qs : List Bytes)
    → Adds ps p qs
    → IsDistinct ps
    → All (λ (q : Bytes). q ≢ p) ps
    → IsDistinct qs
Adds-IsDistinct ps p qs (inl e) d k = subst IsDistinct (sym e) d
Adds-IsDistinct ps p qs (inr e) d k = subst IsDistinct (sym e) (IsDistinct-snoc ps p d k)

module _ (mem : Memory) (target : Option Bytes) (set reset : ℕ) where
  added-HasDistinct :
      (vfs : Vfs) (ds : List Bytes) (target' : Option Bytes) (set' reset' : ℕ) (prev : Option ℕ)
      → All IsName ds
      → find_inode vfs (show ds) ≡ none
      → IsDistinct (paths vfs.inodes)
      → IfDone HasDistinct (add_single_inode mem vfs (show ds) target' set' reset' prev)
  unfolding find_inode
  added-HasDistinct vfs ds target' set' reset' prev h e d =
      returned (add_single_inode mem vfs (show ds) target' set' reset' prev)
        (add_single_inode-Adds mem vfs (show ds) target' set' reset' prev)
    where
      returned :
          (o : Outcome (Vfs × Option ℕ))
          → IfDone
              (λ (r : Vfs × Option ℕ).
                Adds (paths vfs.inodes) (truncate_trailing_slash (show ds)) (paths r.0.inodes))
              o
          → IfDone HasDistinct o
      returned undefined a = tt
      returned (done r) a =
          Adds-IsDistinct (paths vfs.inodes) (render ds) (paths r.0.inodes)
            (subst (λ p. Adds (paths vfs.inodes) p (paths r.0.inodes)) (truncate-show ds h) a) d
            (find_in-none vfs.inodes ds h e)

  entered-HasDistinct :
      (vfs : Vfs) (ds : List Bytes) (full : Bool) (prev : Option ℕ)
      → All IsName ds
      → IsDistinct (paths vfs.inodes)
      → IfDone HasDistinct
          (enter_prefix mem target set reset (show ds) full vfs prev (find_inode vfs (show ds)))
  unfolding enter_prefix
  entered-HasDistinct vfs ds full prev h d = by_found (find_inode vfs (show ds)) refl
    where
      by_found :
          (o : Option Inode)
          → find_inode vfs (show ds) ≡ o
          → IfDone HasDistinct (enter_prefix mem target set reset (show ds) full vfs prev o)
      by_found (some n) e = d
      by_found none e =
          if-cases (IfDone HasDistinct) (not full)
            {x = add_single_inode mem vfs (show ds) none 0 0 prev}
            {y = add_single_inode mem vfs (show ds) target set reset prev}
            (λ _. added-HasDistinct vfs ds none 0 0 prev h e d)
            (λ _. added-HasDistinct vfs ds target set reset prev h e d)

  abbrev splitter : Bytes → Bool → Outcome (Vfs × Option ℕ) → Outcome (Vfs × Option ℕ) × Bool
  splitter = add_inode_splitter mem target set reset

  run_one :
      (ctx : Outcome (Vfs × Option ℕ)) (ds : List Bytes) (full : Bool) (rest : List (Bytes × Bool))
      → All IsName ds
      → IfDone HasDistinct ctx
      → ((ctx' : Outcome (Vfs × Option ℕ))
          → IfDone HasDistinct ctx'
          → IfDone HasDistinct (run_until splitter ctx' rest))
      → IfDone HasDistinct (run_until splitter ctx ((show ds, full) ∷ rest))
  unfolding run_until add_inode_splitter
  run_one ctx ds full rest h d more = more (splitter (show ds) full ctx).0 (
      IfDone-bind HasDistinct HasDistinct ctx
        (λ (vfs, previous).
          enter_prefix mem target set reset (show ds) full vfs previous (find_inode vfs (show ds)))
        d (λ r e. entered-HasDistinct r.0 ds full r.1 h e))

  run_below :
      (ctx : Outcome (Vfs × Option ℕ)) (ps : List Bytes) (c : Bytes) (cs : List Bytes)
      → All IsName ps
      → All IsName (c ∷ cs)
      → IfDone HasDistinct ctx
      → IfDone HasDistinct (run_until splitter ctx (branch (render ps) c cs))
  run_below ctx ps c [] k h d =
      subst (λ p. IfDone HasDistinct (run_until splitter ctx ((p, true) ∷ []))) (show_snoc ps c)
        (run_one ctx (ps ++ c ∷ []) true [] (All-append IsName ps (c ∷ []) k (h.0, tt)) d
          (λ ctx' e. unfold run_until in e))
  run_below ctx ps c (b ∷ cs) k h d =
      let kc = All-append IsName ps (c ∷ []) k (h.0, tt) in
      let tail = branch (render ps ++ slash ∷ c) b cs in
      subst (λ p. IfDone HasDistinct (run_until splitter ctx ((p, false) ∷ tail))) (show_snoc ps c)
        (run_one ctx (ps ++ c ∷ []) false tail kc d (λ ctx' e.
          subst (λ q. IfDone HasDistinct (run_until splitter ctx' (branch q b cs)))
            (render_snoc ps c) (run_below ctx' (ps ++ c ∷ []) b cs kc h.1 e)))

  run_all :
      (ctx : Outcome (Vfs × Option ℕ)) (cs : List Bytes)
      → All IsName cs
      → IfDone HasDistinct ctx
      → IfDone HasDistinct (run_until splitter ctx (prefixes cs))
  run_all ctx [] h d = run_one ctx [] true [] tt d (λ ctx' e. unfold run_until in e)
  run_all ctx (c ∷ cs) h d =
      run_one ctx [] false (branch [] c cs) tt d (λ ctx' e. run_below ctx' [] c cs tt h e)

-- Whatever memory is granted and whatever is given for a path of names, adding an inode leaves no two
-- inodes of the same path, where there were none.
pub add_inode-IsDistinct :
    (mem : Memory) (vfs : Vfs) (cs : List Bytes) (target : Option Bytes) (set reset : ℕ)
    → All IsName cs
    → IsDistinct (paths vfs.inodes)
    → IfDone
        (λ (r : Vfs × Bool). IsDistinct (paths r.0.inodes))
        (add_inode mem vfs (show cs) target set reset)
unfolding add_inode add_unless_found
add_inode-IsDistinct mem vfs cs target set reset h d =
    let Kept : Outcome (Vfs × Bool) → Type 0 = IfDone HasDistinct in
    let failed : Outcome (Vfs × Bool) =
      done (set_error vfs InternalError.add_inode_parameter_error, false) in
    let behind = add_unless_found mem vfs (show cs) target set reset (find_inode vfs (show cs)) in
    if-cases Kept (not (is_absolute_path (show cs))) {x = failed} (λ _. d)
      (λ _.
        if-cases Kept (given_relative target) {x = failed} {y = behind} (λ _. d)
          (λ _. by_found (find_inode vfs (show cs))))
  where
    by_found :
        (o : Option Inode)
        → IfDone HasDistinct (add_unless_found mem vfs (show cs) target set reset o)
    by_found (some n) = d
    by_found none =
        IfDone-bind HasDistinct HasDistinct
          (path_split (add_inode_splitter mem target set reset) (show cs) (done (vfs, none)))
          (λ (vfs', previous). done (vfs', true))
          (subst (IfDone HasDistinct)
            (sym
              (path_split-show (add_inode_splitter mem target set reset) cs (done (vfs, none)) h))
            (run_all mem target set reset (done (vfs, none)) cs h d))
          (λ r e. e)
