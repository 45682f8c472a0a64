-- ===== src/Vfs/Unique.antt =====
-- No two inodes of vfs.c have the same path.
use mathlib.Core.List.{map}
use umsftpd.Prelude.{
  ℕ, ◌≡◌, ◌≢◌, refl, sym, ap, ◌∙◌, Bool, true, false, not, List, [], ◌∷◌, ◌++◌, Option, none, some,
  Bytes, All, All-append, length, ◌==◌, if◌then◌else◌, if-cases, ◌⊎◌, inl, inr, Outcome, done,
  undefined, ◌>>=◌,
}
use umsftpd.Paths.{truncate_trailing_slash, pathcmp}
use umsftpd.Paths.Names.{IsName, render, show}
use umsftpd.Paths.Compare.{pathcmp-render}
use umsftpd.Paths.Checks.{const_basename}
use umsftpd.StringList
use umsftpd.StringList.{StringList}
use umsftpd.Vfs.{Inode, Vfs, Memory, Site, InternalError, set_error, find_in}
use umsftpd.Vfs.Insert.{insert_subdir, link_parent, make_inode, add_single_inode}

-- What holds of a value that is returned.
abbrev pub IfDone : {A : Type 0} → (A → Type 0) → Outcome A → Type 0
IfDone P (done a) = P a
IfDone P undefined = Unit

pub IfDone-bind :
    {A B : Type 0} (P : A → Type 0) (Q : B → Type 0) (o : Outcome A) (k : A → Outcome B)
    → IfDone P o
    → ((a : A) → P a → IfDone Q (k a))
    → IfDone Q (o >>= k)
IfDone-bind P Q (done a) k h f = f a h
IfDone-bind P Q undefined k h f = tt

abbrev pub paths : List Inode → List Bytes
paths ns = map (λ (n : Inode). n.virtual_path) ns

abbrev pub IsDistinct : List Bytes → Type 0
IsDistinct [] = Unit
IsDistinct (p ∷ ps) = All (λ (q : Bytes). p ≢ q) ps × IsDistinct ps

pub IsDistinct-snoc :
    (ps : List Bytes) (p : Bytes)
    → IsDistinct ps
    → All (λ (q : Bytes). q ≢ p) ps
    → IsDistinct (ps ++ p ∷ [])
IsDistinct-snoc [] p h k = (tt, tt)
IsDistinct-snoc (q ∷ ps) p (a, h) (n, k) =
    (All-append (λ (r : Bytes). q ≢ r) ps (p ∷ []) a (n, tt), IsDistinct-snoc ps p h k)

-- Entering a name under a parent keeps the paths.
insert_subdir-paths :
    (mem : Memory) (path : Bytes) (p : ℕ) (ns : List Inode) (name : Bytes)
    → IfDone (λ ns'. paths ns' ≡ paths ns) (insert_subdir mem path p ns name)
unfolding insert_subdir
insert_subdir-paths mem path p [] name = refl
insert_subdir-paths mem path p (n ∷ ns) name =
    by_id (n.id == p) n.virtual_subdirs (insert_subdir mem path p ns name)
      (insert_subdir-paths mem path p ns name)
  where
    by_id :
        (here : Bool) (subdirs : Option StringList) (rest : Outcome (List Inode))
        → IfDone (λ ns'. paths ns' ≡ paths ns) rest
        → IfDone
            (λ ns'. paths ns' ≡ paths (n ∷ ns))
            (elim here [
              | true ↦ elim subdirs [
                | none ↦ undefined
                | some list ↦ done (
                    record n {
                      virtual_subdirs =
                          some
                            (StringList.insert
                              (mem Site.subdir_copy path)
                              (mem Site.subdir_array path)
                              list
                              name).0;
                    }
                    ∷ ns)
              ]
              | false ↦ rest >>= λ rest'. done (n ∷ rest')
            ])
    by_id true none rest h = tt
    by_id true (some list) rest h = refl
    by_id false subdirs (done ns') h = ap (λ ps. n.virtual_path ∷ ps) h
    by_id false subdirs undefined h = tt

link_parent-paths :
    (mem : Memory) (vfs : Vfs) (vpath : Bytes) (parent : Option ℕ)
    → IfDone (λ (v : Vfs). paths v.inodes ≡ paths vfs.inodes) (link_parent mem vfs vpath parent)
unfolding link_parent
link_parent-paths mem vfs vpath none = refl
link_parent-paths mem vfs vpath (some p) =
    IfDone-bind (λ (n : Bytes). Unit) (λ (v : Vfs). paths v.inodes ≡ paths vfs.inodes)
      (const_basename vpath)
      (λ name.
        insert_subdir mem vpath p vfs.inodes name
        >>= (λ inodes. done (record vfs { inodes = inodes })))
      (trivial (const_basename vpath))
      (λ name _.
        IfDone-bind (λ ns. paths ns ≡ paths vfs.inodes)
          (λ (v : Vfs). paths v.inodes ≡ paths vfs.inodes)
          (insert_subdir mem vpath p vfs.inodes name)
          (λ inodes. done (record vfs { inodes = inodes }))
          (insert_subdir-paths mem vpath p vfs.inodes name) (λ ns e. e))
  where
    trivial : (o : Outcome Bytes) → IfDone (λ (n : Bytes). Unit) o
    trivial (done n) = tt
    trivial undefined = tt

-- The paths of a table, and those with one more.
abbrev pub Adds : List Bytes → Bytes → List Bytes → Type 0
Adds ps p qs = (qs ≡ ps) ⊎ (qs ≡ ps ++ p ∷ [])

paths-append :
    (ns : List Inode) (n : Inode) → paths (ns ++ n ∷ []) ≡ paths ns ++ n.virtual_path ∷ []
paths-append [] n = refl
paths-append (m ∷ ns) n = ap (λ ps. m.virtual_path ∷ ps) (paths-append ns n)

pub add_single_inode-Adds :
    (mem : Memory) (vfs : Vfs) (path : Bytes) (target : Option Bytes) (set reset : ℕ)
    (parent : Option ℕ)
    → IfDone
        (λ (r : Vfs × Option ℕ).
          Adds (paths vfs.inodes) (truncate_trailing_slash path) (paths r.0.inodes))
        (add_single_inode mem vfs path target set reset parent)
unfolding add_single_inode
add_single_inode-Adds mem vfs path target set reset parent =
    let vpath = truncate_trailing_slash path in
    let Grows = λ (r : Vfs × Option ℕ). Adds (paths vfs.inodes) vpath (paths r.0.inodes) in
    let failed : Outcome (Vfs × Option ℕ) =
      done (set_error vfs InternalError.add_inode_out_of_memory, none) in
    let enter : Vfs → Outcome (Vfs × Option ℕ) = λ linked.
      (if not (mem Site.inode_array path)
        then done (set_error linked InternalError.add_inode_out_of_memory, none)
        else (let id = length linked.inodes in
            let inode = make_inode mem id vpath target set reset parent in
            done (record linked { inodes = linked.inodes ++ inode ∷ [] }, some id))) in
    let entered : Outcome (Vfs × Option ℕ) = link_parent mem vfs vpath parent >>= enter in
    if-cases (IfDone Grows) (not (mem Site.vpath_copy path)) {x = failed} (λ _. inl refl)
      (λ _.
        if-cases (IfDone Grows)
          (elim target [ none ↦ false | some t ↦ not (mem Site.tpath_copy path) ]) {x = failed}
          (λ _. inl refl)
          (λ _.
            if-cases (IfDone Grows) (not (mem Site.new_inode path)) {x = failed} {y = entered}
              (λ _. inl refl)
              (λ _.
                IfDone-bind (λ (v : Vfs). paths v.inodes ≡ paths vfs.inodes) Grows
                  (link_parent mem vfs vpath parent) enter (link_parent-paths mem vfs vpath parent)
                  (λ linked same.
                    if-cases (IfDone Grows) (not (mem Site.inode_array path)) (λ _. inl same)
                      (λ _.
                        let id = length linked.inodes in
                        let inode = make_inode mem id vpath target set reset parent in
                        inr
                          (paths-append linked.inodes inode ∙ ap (λ ps. ps ++ vpath ∷ []) same))))))

-- What is not found has none of the paths.
pub find_in-none :
    (ns : List Inode) (ds : List Bytes)
    → All IsName ds
    → find_in ns (show ds) ≡ none
    → All (λ (q : Bytes). q ≢ render ds) (paths ns)
unfolding find_in
find_in-none [] ds h e = tt
find_in-none (n ∷ ns) ds h e =
    first (pathcmp n.virtual_path (show ds)) refl e (find_in-none ns ds h)
  where
    here : pathcmp n.virtual_path (show ds) ≡ false → n.virtual_path ≢ render ds
    here differs same =
        let yes : pathcmp (render ds) (show ds) ≡ true = ((pathcmp-render ds ds h h).0).1 refl in
        let both : false ≡ true = sym differs ∙ ap (λ p. pathcmp p (show ds)) same ∙ yes in cc

    first :
        (b : Bool)
        → pathcmp n.virtual_path (show ds) ≡ b
        → (if b then some n else find_in ns (show ds)) ≡ none
        → (find_in ns (show ds) ≡ none → All (λ (q : Bytes). q ≢ render ds) (paths ns))
        → All (λ (q : Bytes). q ≢ render ds) (paths (n ∷ ns))
    first true q f rest = absurd (let wrong : some n ≡ none = f in cc)
    first false q f rest = (here q, rest f)
