-- ===== src/Vfs/Lookup/Deepest.antt =====
-- What `vfs_lookup` (vfs.c) finds: the inode of the path itself, the deepest inode on the way to it
-- that has a target, and the flags that the inodes on the way leave.
use umsftpd.Prelude.{
  ℕ, ◌≡◌, refl, sym, ap, ◌∙◌, Bool, true, List, [], ◌∷◌, ◌++◌, Option, none, some, Bytes, All,
  arith, append-nil, append_assoc, if◌then◌else◌, ◌⊎◌, inl, inr,
}
use umsftpd.Paths.{slash, is_absolute_path, path_split}
use umsftpd.Paths.Names.{is_absolute_path-show, IsName, render, show}
use umsftpd.Paths.Buffer.{show_snoc, render_snoc}
use umsftpd.Paths.Split.{branch, prefixes, run_until, path_split-show}
use umsftpd.Vfs.{Inode, Vfs, find_inode}
use umsftpd.Vfs.Lookup.{LookupResult, apply_flags, visit_inode, lookup_splitter, lookup}

abbrev pub first_some : Option Inode → Option Inode → Option Inode
first_some (some a) b = some a
first_some none b = b

first_some_inv :
    (a b : Option Inode) (m : Inode) → first_some a b ≡ some m → (a ≡ some m) ⊎ (b ≡ some m)
first_some_inv none b m e = inr e
first_some_inv (some n) b m e = inl e

abbrev target_of : Option Inode → Option Bytes
target_of none = none
target_of (some n) = n.target_path

first_some-none : (o : Option Inode) → first_some o none ≡ o
first_some-none none = refl
first_some-none (some n) = refl

module _ (vfs : Vfs) where
  -- The flags behind one more prefix.
  abbrev pub flags_at : Option Inode → ℕ → ℕ
  flags_at none flags = flags
  flags_at (some n) flags = apply_flags flags n.flags_set n.flags_reset

  -- The flags behind a list of prefixes.
  unfoldable pub flags_along : List (Bytes × Bool) → ℕ → ℕ
  flags_along [] flags = flags
  flags_along ((p, full) ∷ ps) flags = flags_along ps (flags_at (find_inode vfs p) flags)

  abbrev pub mounted : Option Inode → Option Inode
  mounted none = none
  mounted (some n) = elim n.target_path [ none ↦ none | some t ↦ some n ]

  -- The last inode with a target at the prefixes.
  unfoldable pub deepest : List (Bytes × Bool) → Option Inode
  deepest [] = none
  deepest ((p, full) ∷ ps) = first_some (deepest ps) (mounted (find_inode vfs p))

  -- The last inode at a prefix that is the full path.
  pub at_full : List (Bytes × Bool) → Option Inode
  at_full [] = none
  at_full ((p, full) ∷ ps) = first_some (at_full ps) (if full then find_inode vfs p else none)

  abbrev found_along : List (Bytes × Bool) → LookupResult → LookupResult
  found_along ps r = record {
    flags = flags_along ps r.flags;
    inode = first_some (at_full ps) r.inode;
    mountpoint = first_some (deepest ps) r.mountpoint;
  }

  visit_lem :
      (o : Option Inode) (full : Bool) (ps : List (Bytes × Bool)) (r : LookupResult)
      → found_along ps (visit_inode o full r) ≡ record {
        flags = flags_along ps (flags_at o r.flags);
        inode = first_some (first_some (at_full ps) (if full then o else none)) r.inode;
        mountpoint = first_some (first_some (deepest ps) (mounted o)) r.mountpoint;
      }
  unfolding visit_inode
  visit_lem none full ps r = ground arith
  visit_lem (some n) full ps r = ground arith

  run_lookup :
      (ps : List (Bytes × Bool)) (r : LookupResult)
      → run_until (lookup_splitter vfs) r ps ≡ found_along ps r
  unfolding run_until lookup_splitter
  run_lookup [] r = unfold flags_along deepest at_full in refl
  run_lookup ((p, full) ∷ ps) r =
      run_lookup ps (visit_inode (find_inode vfs p) full r)
      ∙ visit_lem (find_inode vfs p) full ps r
      ∙ unfold flags_along deepest at_full in refl

  at_full-branch :
      (pre c : Bytes) (cs : List Bytes)
      → at_full (branch pre c cs) ≡ find_inode vfs (pre ++ render (c ∷ cs))
  unfolding at_full
  at_full-branch pre c [] = ap (λ t. find_inode vfs (pre ++ slash ∷ t)) (sym (append-nil c))
  at_full-branch pre c (d ∷ cs) =
      first_some-none (at_full (branch (pre ++ slash ∷ c) d cs))
      ∙ at_full-branch (pre ++ slash ∷ c) d cs
      ∙ ap (find_inode vfs) (append_assoc pre (slash ∷ c) (render (d ∷ cs)))

  at_full-prefixes : (cs : List Bytes) → at_full (prefixes cs) ≡ find_inode vfs (show cs)
  unfolding at_full
  at_full-prefixes [] = refl
  at_full-prefixes (c ∷ cs) = first_some-none (at_full (branch [] c cs)) ∙ at_full-branch [] c cs

  abbrev start : LookupResult
  start = record { flags = vfs.base_flags; inode = none; mountpoint = none }

  lookup_run :
      (path : Bytes)
      → vfs.frozen ≡ true
      → is_absolute_path path ≡ true
      → lookup vfs path ≡ (vfs, some (path_split (lookup_splitter vfs) path start))
  unfolding lookup
  lookup_run path f a = simp (f, a)

  -- On frozen inodes, looking up the path of a list of names finds the inode of exactly that path,
  -- the deepest inode with a target among the path and the directories above it, and the base flags
  -- changed by each inode on the way, from the root down.
  pub lookup-show :
      (cs : List Bytes)
      → vfs.frozen ≡ true
      → All IsName cs
      → lookup vfs (show cs) ≡ (
        vfs,
        some (record {
          flags = flags_along (prefixes cs) vfs.base_flags;
          inode = find_inode vfs (show cs);
          mountpoint = deepest (prefixes cs);
        }),
      )
  lookup-show cs f h =
      lookup_run (show cs) f (is_absolute_path-show cs)
      ∙ ap (λ r. (vfs, some r))
          (path_split-show (lookup_splitter vfs) cs start h
            ∙ run_lookup (prefixes cs) start
            ∙ ap
                (λ o. record {
                  flags = flags_along (prefixes cs) vfs.base_flags;
                  inode = o;
                  mountpoint = first_some (deepest (prefixes cs)) none;
                })
                (first_some-none (at_full (prefixes cs)) ∙ at_full-prefixes cs)
            ∙ ap
                (λ o. record {
                  flags = flags_along (prefixes cs) vfs.base_flags;
                  inode = find_inode vfs (show cs);
                  mountpoint = o;
                })
                (first_some-none (deepest (prefixes cs))))

  -- A mountpoint stands on the way to the path, and has a target.
  abbrev pub MountedAbove : List Bytes → Inode → Type 0
  MountedAbove cs m =
      (ps : List Bytes) × (rest : List Bytes) × (cs ≡ ps ++ rest)
      × (find_inode vfs (show ps) ≡ some m)
      × ((t : Bytes) × (m.target_path ≡ some t))

  mounted_target :
      (n m : Inode) (o : Option Bytes)
      → ◌≡◌ {A = Option Inode} (elim o [ none ↦ none | some t ↦ some n ]) (some m)
      → n.target_path ≡ o
      → (some n ≡ some m) × ((t : Bytes) × (m.target_path ≡ some t))
  mounted_target n m none e q = cc
  mounted_target n m (some t) e q = (e, (t, ap target_of (sym e) ∙ q))

  mounted_inv :
      (o : Option Inode) (m : Inode)
      → mounted o ≡ some m
      → (o ≡ some m) × ((t : Bytes) × (m.target_path ≡ some t))
  mounted_inv none m e = cc
  mounted_inv (some n) m e = mounted_target n m n.target_path e refl

  deepest-branch :
      (ps : List Bytes) (c : Bytes) (cs : List Bytes) (m : Inode)
      → deepest (branch (render ps) c cs) ≡ some m
      → MountedAbove (ps ++ c ∷ cs) m
  unfolding deepest
  deepest-branch ps c [] m e =
      let (f, t) = mounted_inv (find_inode vfs (render ps ++ slash ∷ c)) m e in
      (
        ps ++ c ∷ [],
        [],
        sym (append-nil (ps ++ c ∷ [])),
        ap (find_inode vfs) (show_snoc ps c) ∙ f,
        t,
      )
  deepest-branch ps c (d ∷ cs) m e =
      elim (first_some_inv (deepest (branch (render ps ++ slash ∷ c) d cs))
        (mounted (find_inode vfs (render ps ++ slash ∷ c))) m e) [
          | inl below ↦
              let (qs, rest, p, f, t) =
                deepest-branch (ps ++ c ∷ []) d cs m
                  (ap (λ q. deepest (branch q d cs)) (render_snoc ps c) ∙ below) in
              (qs, rest, sym (append_assoc ps (c ∷ []) (d ∷ cs)) ∙ p, f, t)
          | inr here ↦
              let (f, t) = mounted_inv (find_inode vfs (render ps ++ slash ∷ c)) m here in
              (
                ps ++ c ∷ [],
                d ∷ cs,
                sym (append_assoc ps (c ∷ []) (d ∷ cs)),
                ap (find_inode vfs) (show_snoc ps c) ∙ f,
                t,
              )
        ]

  pub deepest-MountedAbove :
      (cs : List Bytes) (m : Inode) → deepest (prefixes cs) ≡ some m → MountedAbove cs m
  unfolding deepest
  deepest-MountedAbove [] m e =
      let (f, t) = mounted_inv (find_inode vfs (slash ∷ [])) m e in ([], [], refl, f, t)
  deepest-MountedAbove (c ∷ cs) m e =
      elim (first_some_inv (deepest (branch [] c cs)) (mounted (find_inode vfs (slash ∷ []))) m e) [
        | inl below ↦ deepest-branch [] c cs m below
        | inr here ↦
            let (f, t) = mounted_inv (find_inode vfs (slash ∷ [])) m here in
            ([], c ∷ cs, refl, f, t)
      ]
