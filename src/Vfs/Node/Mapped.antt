-- ===== src/Vfs/Node/Mapped.antt =====
-- What `sanitize_path` and `vfs_map_path` give `vfs_open_node` (vfs.c).
use umsftpd.Prelude.{
  ℕ, ◌+◌, ◌≤◌, ◌≡◌, refl, sym, ap, ◌∙◌, ◌⊎◌, inl, inr, Bool, true, false, List, [], ◌∷◌, ◌++◌,
  Option, none, some, Bytes, All, arith, length, length-append, take, drop, drop-append, Outcome,
  done, append_assoc, append-nil, Bool-cases,
}
use umsftpd.Paths.{slash, is_absolute_path, sanitize_path, sanitize_absolute_path}
use umsftpd.Paths.Names.{IsClean, render, show}
use umsftpd.Paths.Buffer.{render-append}
use umsftpd.Paths.Sanitize.{sanitize_absolute_path_cases, resolve, resolve-IsClean}
use umsftpd.Vfs.{Inode, Vfs, Memory, Site, InternalError}
use umsftpd.Vfs.Insert.Step.{IsTable}
use umsftpd.Vfs.Node.{map_below}

-- Every inode is well formed, and the working directory is a path of clean names.
pub record IsVfs (vfs : Vfs) : Type 0 where
  pub table : IsTable vfs.inodes
  pub cwd_names : List Bytes
  pub cwd_clean : All IsClean cwd_names
  pub cwd : vfs.cwd_path ≡ render cwd_names

is_absolute-render :
    (cs : List Bytes) (path : Bytes) → is_absolute_path (render cs ++ slash ∷ path) ≡ true
unfolding is_absolute_path
is_absolute-render [] path = refl
is_absolute-render (c ∷ cs) path = refl

-- NULL for want of memory, or the path of clean names.
abbrev pub CleanOrNull : Bool → Outcome (Option Bytes) → Type 0
CleanOrNull malloc_ok result =
    ((malloc_ok ≡ false) × (result ≡ done none))
    ⊎ ((cs : List Bytes) × All IsClean cs × (result ≡ done (some (show cs))))

sanitized_absolute :
    (malloc_ok : Bool) (path : Bytes)
    → is_absolute_path path ≡ true
    → CleanOrNull malloc_ok (sanitize_absolute_path malloc_ok path)
sanitized_absolute malloc_ok path abs = elim (sanitize_absolute_path_cases malloc_ok path) [
  | inl (why, r) ↦ elim why [
    | inl rel ↦ let x : true ≡ false = sym abs ∙ rel in cc
    | inr m ↦ inl (m, r)
  ]
  | inr (s', p, r) ↦ inr (resolve s', resolve-IsClean s', r)
]

-- Whatever path a client gives, it is sanitised to a path of clean names, or memory runs out.
pub sanitize_path_clean :
    (malloc_ok : Bool) (ds : List Bytes) (path : Bytes)
    → CleanOrNull malloc_ok (sanitize_path malloc_ok (render ds) path)
unfolding sanitize_path
sanitize_path_clean malloc_ok ds path = elim (Bool-cases (is_absolute_path path)) [
  | inl abs ↦ rw abs (sanitized_absolute malloc_ok path abs)
  | inr rel ↦
      rw rel (sanitized_absolute malloc_ok (render ds ++ slash ∷ path) (is_absolute-render ds path))
]

-- What stands behind the target in a mapped path: the names below the mountpoint, and a slash for
-- the virtual root itself.
abbrev pub mapped_rest : List Bytes → List Bytes → Bytes
mapped_rest [] [] = slash ∷ []
mapped_rest (p ∷ ps) [] = []
mapped_rest ps (r ∷ rest) = render (r ∷ rest)

take_all : (t : Bytes) (n : ℕ) → n ≡ length t → take n t ≡ t
take_all t n e = rw e (all t)
  where
    all : (x : Bytes) → take (length x) x ≡ x
    all [] = refl
    all (b ∷ x) = ap (λ y. b ∷ y) (all x)

drop_suc : (x : Bytes) (b : ℕ) (y : Bytes) → drop (length x + 1) (x ++ b ∷ y) ≡ y
drop_suc x b y =
    let e : length x + 1 ≡ length (x ++ b ∷ []) = omega (arith, length-append x (b ∷ [])) in
    rw (e, ← append_assoc x (b ∷ []) y) (drop-append (x ++ b ∷ []) y)

map_below_run :
    (mem : Memory) (vfs : Vfs) (m : Inode) (t x y : Bytes)
    → mem Site.map_buffer (x ++ slash ∷ y) ≡ true
    → m.target_path ≡ some t
    → m.tlen ≡ length t
    → m.vlen ≡ length x
    → map_below mem vfs m (x ++ slash ∷ y) ≡ done (vfs, some (t ++ slash ∷ y))
unfolding map_below
map_below_run mem vfs m t x y g e l v =
    let d : drop (m.vlen + 1) (x ++ slash ∷ y) ≡ y =
      ap (λ n. drop (n + 1) (x ++ slash ∷ y)) v ∙ drop_suc x slash y in
    ground (arith, take_all t m.tlen l, length-append x (slash ∷ y))

map_below_exact :
    (mem : Memory) (vfs : Vfs) (m : Inode) (t x : Bytes)
    → mem Site.map_buffer x ≡ true
    → m.target_path ≡ some t
    → m.vlen ≡ length x
    → map_below mem vfs m x ≡ done (vfs, some t)
unfolding map_below
map_below_exact mem vfs m t x g e v = ground arith

pub map_below_no_memory :
    (mem : Memory) (vfs : Vfs) (m : Inode) (path : Bytes)
    → mem Site.map_buffer path ≡ false
    → m.vlen ≤ length path
    → map_below mem vfs m path
      ≡ done (record vfs { error_code = InternalError.out_of_memory }, none)
unfolding map_below
map_below_no_memory mem vfs m path g v = ground arith

-- With memory, the path of names below a mountpoint is mapped to the target and these names.
pub map_below-show :
    (mem : Memory) (vfs : Vfs) (m : Inode) (t : Bytes) (ps rest : List Bytes)
    → mem Site.map_buffer (show (ps ++ rest)) ≡ true
    → m.target_path ≡ some t
    → m.tlen ≡ length t
    → m.vlen ≡ length (render ps)
    → map_below mem vfs m (show (ps ++ rest)) ≡ done (vfs, some (t ++ mapped_rest ps rest))
map_below-show mem vfs m t [] [] g e l v = map_below_run mem vfs m t [] [] g e l v
map_below-show mem vfs m t [] (r ∷ rest) g e l v =
    map_below_run mem vfs m t [] (r ++ render rest) g e l v
map_below-show mem vfs m t (p ∷ ps) [] g e l v =
    let same : show ((p ∷ ps) ++ []) ≡ render (p ∷ ps) = ap (λ qs. show (p ∷ qs)) (append-nil ps) in
    ap (map_below mem vfs m) same
    ∙ map_below_exact mem vfs m t (render (p ∷ ps)) (ap (mem Site.map_buffer) (sym same) ∙ g) e v
    ∙ ap (λ x. done (vfs, some x)) (sym (append-nil t))
map_below-show mem vfs m t (p ∷ ps) (r ∷ rest) g e l v =
    let same : show ((p ∷ ps) ++ r ∷ rest) ≡ render (p ∷ ps) ++ slash ∷ (r ++ render rest) =
      render-append (p ∷ ps) (r ∷ rest) in
    ap (map_below mem vfs m) same
    ∙ map_below_run mem vfs m t (render (p ∷ ps)) (r ++ render rest)
        (ap (mem Site.map_buffer) (sym same) ∙ g) e l v

pub length-show : (ps rest : List Bytes) → length (render ps) ≤ length (show (ps ++ rest))
length-show [] rest = omega arith
length-show (p ∷ ps) rest =
    omega (
      arith,
      ap length (render-append (p ∷ ps) rest),
      length-append (render (p ∷ ps)) (render rest),
    )
