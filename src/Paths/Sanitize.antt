-- ===== src/Paths/Sanitize.antt =====
-- What `sanitize_absolute_path` and `sanitize_path` (strings.c) return.
use mathlib.Core.List.{reverse, reverse-cons, foldl, foldl-append}
use umsftpd.Prelude.{
  All-reverse, suc, ◌+◌, Bool, true, false, ◌≡◌, refl, sym, ap, ◌∙◌, List, [], ◌∷◌, ◌++◌,
  append_assoc, append-nil, some, none, Bytes, All, ◌⊎◌, length, arith, codes, done, Bool-cases,
  inl, inr, str_eq_iff,
}
use umsftpd.Paths.{slash, sanitize_absolute_path, sanitize_path, is_absolute_path}
use umsftpd.Paths.Names.{Lacks, IsName, IsClean, render, show, parts}
use umsftpd.Paths.Parts.{parts-render_behind}
use umsftpd.Paths.Buffer.{
  buffer, walk, step, sanitize_loop_lem, put_lem, reverse-buffer, length-walk, length-buffer,
  parts-Lacks,
}

-- An absolute path is sanitised to the names that are left when "." and empty parts are dropped and
-- each ".." takes away the name before it, and every byte that is written lies in the buffer.
pub sanitize_absolute_path_lem :
    (s : Bytes) → sanitize_absolute_path true (slash ∷ s) ≡ done (some (show (reverse (walk s))))
unfolding sanitize_absolute_path
sanitize_absolute_path_lem s =
    rw
      (
        sanitize_loop_lem (suc (length s) + 1) s [] [] tt tt (omega arith),
        put_lem (suc (length s) + 1) 0 (buffer (walk s))
            (omega (arith, length-buffer (walk s), length-walk s [] [])),
        reverse-buffer (walk s),
      )
      refl

-- Every name that is kept is clean.
step-IsClean : (st : List Bytes) (t : Bytes) → All IsClean st → Lacks t → All IsClean (step st t)
step-IsClean st [] h ht = h
step-IsClean [] (a ∷ t) h ht =
    grind (arith, str_eq_iff (a ∷ t) (codes "."), str_eq_iff (a ∷ t) (codes ".."))
step-IsClean (c ∷ st) (a ∷ t) h ht =
    grind (arith, str_eq_iff (a ∷ t) (codes "."), str_eq_iff (a ∷ t) (codes ".."))

walk-IsClean : (ts st : List Bytes) → All IsClean st → All Lacks ts → All IsClean (foldl step st ts)
walk-IsClean [] st h ht = h
walk-IsClean (t ∷ ts) st h ht = walk-IsClean ts (step st t) (step-IsClean st t h ht.0) ht.1

-- The names that an absolute path's text behind the first slash leads to, in order.
abbrev pub resolve : Bytes → List Bytes
resolve s = reverse (walk s)

pub resolve-IsClean : (s : Bytes) → All IsClean (resolve s)
resolve-IsClean s =
    All-reverse IsClean (walk s) (walk-IsClean (parts [] s) [] tt (parts-Lacks s [] tt))

sanitize-relative :
    (malloc_ok : Bool) (path : Bytes)
    → is_absolute_path path ≡ false
    → sanitize_absolute_path malloc_ok path ≡ done none
unfolding sanitize_absolute_path
sanitize-relative malloc_ok path h = rw h

sanitize_no_memory : (path : Bytes) → sanitize_absolute_path false path ≡ done none
unfolding sanitize_absolute_path
sanitize_no_memory path = ground arith

is_absolute_path_inv :
    (path : Bytes) → is_absolute_path path ≡ true → (s : Bytes) × (path ≡ slash ∷ s)
unfolding is_absolute_path
is_absolute_path_inv [] h = cc
is_absolute_path_inv (c ∷ s) h = (s, ground arith)

-- Sanitising gives NULL for a path that is not absolute or when memory runs out, and otherwise the
-- path of the names that the text leads to; no outcome is undefined.
pub sanitize_absolute_path_cases :
    (malloc_ok : Bool) (path : Bytes)
    → (((is_absolute_path path ≡ false) ⊎ (malloc_ok ≡ false))
        × (sanitize_absolute_path malloc_ok path ≡ done none))
      ⊎ ((s : Bytes) × (path ≡ slash ∷ s)
          × (sanitize_absolute_path malloc_ok path ≡ done (some (show (resolve s)))))
sanitize_absolute_path_cases false path = inl (inr refl, sanitize_no_memory path)
sanitize_absolute_path_cases true path = elim (Bool-cases (is_absolute_path path)) [
  | inr e ↦ inl (inl e, sanitize-relative true path e)
  | inl e ↦
      inr (let (s, p) = is_absolute_path_inv path e in (s, p, rw p (sanitize_absolute_path_lem s)))
]

step-clean : (st : List Bytes) (c : Bytes) → IsClean c → step st c ≡ c ∷ st
step-clean st [] h = absurd (h.0.0 refl)
step-clean st (a ∷ c) h =
    grind (arith, str_eq_iff (a ∷ c) (codes "."), str_eq_iff (a ∷ c) (codes ".."))

foldl-step : (cs st : List Bytes) → All IsClean cs → foldl step st cs ≡ reverse cs ++ st
foldl-step [] st h = refl
foldl-step (c ∷ cs) st h =
    rw (step-clean st c h.0, foldl-step cs (c ∷ st) h.1, reverse-cons c cs)
      (sym (append_assoc (reverse cs) (c ∷ []) st))

pub IsClean→IsName : (cs : List Bytes) → All IsClean cs → All IsName cs
IsClean→IsName [] h = tt
IsClean→IsName (c ∷ cs) h = (h.0.0, IsClean→IsName cs h.1)

resolve_onto :
    (cs ts : List Bytes) → All IsClean cs → foldl step [] (cs ++ ts) ≡ foldl step (reverse cs) ts
resolve_onto cs ts h =
    foldl-append step [] cs ts
    ∙ ap (λ st. foldl step st ts) (foldl-step cs [] h ∙ append-nil (reverse cs))

walk-behind :
    (c : Bytes) (cs : List Bytes) (path : Bytes)
    → All IsClean (c ∷ cs)
    → walk (c ++ (render cs ++ slash ∷ path)) ≡ foldl step (reverse (c ∷ cs)) (parts [] path)
walk-behind c cs path h =
    ap (foldl step []) (parts-render_behind c cs path h.0.0.1 (IsClean→IsName cs h.1))
    ∙ resolve_onto (c ∷ cs) (parts [] path) h

-- A relative path is resolved from the names of the working directory.
pub sanitize_path-relative :
    (cs : List Bytes) (path : Bytes)
    → All IsClean cs
    → is_absolute_path path ≡ false
    → sanitize_path true (render cs) path
      ≡ done (some (show (reverse (foldl step (reverse cs) (parts [] path)))))
unfolding sanitize_path
sanitize_path-relative [] path h rel = rw rel (sanitize_absolute_path_lem path)
sanitize_path-relative (c ∷ cs) path h rel =
    rw (rel, append_assoc c (render cs) (slash ∷ path))
      (sanitize_absolute_path_lem (c ++ (render cs ++ slash ∷ path))
        ∙ ap (λ st. done (some (show (reverse st)))) (walk-behind c cs path h))
