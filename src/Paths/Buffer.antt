-- ===== src/Paths/Buffer.antt =====
-- The buffer of `sanitize_absolute_path` (strings.c) as a stack of names.
use mathlib.Core.List.{reverse, reverse-append, reverse-reverse, reverse-cons, foldl, cons-ne-nil}
use umsftpd.Prelude.{
  All-reverse, length-reverse, ℕ, ◌+◌, ◌≤◌, ◌<◌, false, ◌≢◌, ◌≡◌, refl, sym, ap, ◌∙◌, List, [], ◌∷◌,
  ◌++◌, append_assoc, append-nil, Bytes, All, All-append, length, length-append, arith, codes, ◌==◌,
  str_eq, drop, get_or, if◌then◌else◌, ◌||◌, done, ◌>>=◌, Bool-cases, inl, inr, ◌⊎◌,
}
use umsftpd.Paths.{
  slash, put, copy_in, strip_name, drop_slash, backtrack, sanitize_token, sanitize_loop,
}
use umsftpd.Paths.Names.{Lacks, IsName, render, show, parts}

-- The buffer, last byte first, that holds a stack of names, the deepest name first.
abbrev pub below : List Bytes → Bytes
below [] = []
below (c ∷ st) = reverse c ++ slash ∷ below st

abbrev pub buffer : List Bytes → Bytes
buffer [] = slash ∷ []
buffer (c ∷ st) = below (c ∷ st)

copy_in_lem :
    (cap : ℕ) (t r : Bytes) → length r + length t ≤ cap → copy_in cap t r ≡ done (reverse t ++ r)
unfolding copy_in put
copy_in_lem cap [] r h = refl
copy_in_lem cap (b ∷ t) r h =
    rw (reverse-cons b t, append_assoc (reverse t) (b ∷ []) r)
      (ground (arith, copy_in_lem cap t (b ∷ r) (omega arith)))

strip_name_lem : (x r : Bytes) → Lacks x → strip_name (x ++ slash ∷ r) ≡ slash ∷ r
unfolding strip_name
strip_name_lem [] [] h = refl
strip_name_lem [] (c ∷ r) h = refl
strip_name_lem (b ∷ []) r h = ground (arith, strip_name_lem [] r tt)
strip_name_lem (b ∷ d ∷ x) r h = ground (arith, strip_name_lem (d ∷ x) r h.1)

drop_slash_lem : (x r : Bytes) → drop_slash (slash ∷ (x ++ slash ∷ r)) ≡ x ++ slash ∷ r
unfolding drop_slash
drop_slash_lem [] r = refl
drop_slash_lem (b ∷ x) r = refl

-- Backtracking takes the deepest name away, and leaves the root as it is.
backtrack_lem : (st : List Bytes) → All IsName st → backtrack (buffer st) ≡ buffer (drop 1 st)
unfolding backtrack
backtrack_lem [] h = unfold strip_name drop_slash in refl
backtrack_lem (c ∷ []) h =
    rw (strip_name_lem (reverse c) [] (All-reverse (λ b. b ≢ slash) c h.0.1))
      (unfold drop_slash in refl)
backtrack_lem (c ∷ d ∷ st) h =
    rw (strip_name_lem (reverse c) (below (d ∷ st)) (All-reverse (λ b. b ≢ slash) c h.0.1))
      (drop_slash_lem (reverse d) (below st))

-- What a part of a path does to a stack of names.
abbrev pub step : List Bytes → Bytes → List Bytes
step st t =
    if str_eq t [] || str_eq t (codes ".")
    then st
    else if str_eq t (codes "..")
    then drop 1 st
    else t ∷ st

last_not_slash : (x r : Bytes) → x ≢ [] → Lacks x → (get_or (x ++ r) 0 0 == slash) ≡ false
last_not_slash [] r ne h = absurd (ne refl)
last_not_slash (b ∷ x) r ne h = ground arith

reverse-ne-nil : (x : Bytes) → x ≢ [] → reverse x ≢ []
reverse-ne-nil x ne e = ne (sym (reverse-reverse x) ∙ ap reverse e)

pub put_lem : (cap b : ℕ) (r : Bytes) → length r < cap → put cap b r ≡ done (b ∷ r)
unfolding put
put_lem cap b r h = ground arith

-- The buffer ends in a slash only at the root.
copy_name :
    (cap : ℕ) (t : Bytes) (st : List Bytes)
    → All IsName st
    → length (below st) + 1 + length t ≤ cap
    → ((if get_or (buffer st) 0 0 == slash then done (buffer st) else put cap slash (buffer st))
        >>= λ r. copy_in cap t r)
      ≡ done (below (t ∷ st))
copy_name cap t [] h fits = copy_in_lem cap t (slash ∷ []) (omega arith)
copy_name cap t (c ∷ st) h fits =
    rw
      (
        last_not_slash (reverse c) (slash ∷ below st) (reverse-ne-nil c h.0.0)
            (All-reverse (λ b. b ≢ slash) c h.0.1),
        put_lem cap slash (below (c ∷ st)) (omega arith),
      )
      (copy_in_lem cap t (slash ∷ below (c ∷ st)) (omega arith))

sanitize_token_lem :
    (cap : ℕ) (t : Bytes) (st : List Bytes)
    → All IsName st
    → Lacks t
    → length (below st) + 1 + length t ≤ cap
    → sanitize_token cap t (buffer st) ≡ done (buffer (step st t))
unfolding sanitize_token
sanitize_token_lem cap [] st h ht fits = refl
sanitize_token_lem cap (a ∷ []) st h ht fits = ground (arith, copy_name cap (a ∷ []) st h fits)
sanitize_token_lem cap (a ∷ b ∷ []) st h ht fits =
    ground (arith, copy_name cap (a ∷ b ∷ []) st h fits, backtrack_lem st h)
sanitize_token_lem cap (a ∷ b ∷ c ∷ t) st h ht fits =
    ground (arith, copy_name cap (a ∷ b ∷ c ∷ t) st h fits)

step-IsName : (st : List Bytes) (t : Bytes) → All IsName st → Lacks t → All IsName (step st t)
step-IsName st [] h ht = h
step-IsName [] (a ∷ t) h ht = ground arith
step-IsName (c ∷ st) (a ∷ t) h ht = ground arith

length-step :
    (st : List Bytes) (t : Bytes) → length (below (step st t)) ≤ length (below st) + 1 + length t
length-step [] t = ground (arith, length-append (reverse t) (slash ∷ []), length-reverse t)
length-step (c ∷ st) t = ground (
  arith,
  length-append (reverse t) (slash ∷ below (c ∷ st)),
  length-append (reverse c) (slash ∷ below st),
  length-reverse t,
)

pub not_slash : (c : ℕ) → (c == slash) ≡ false → c ≢ slash
not_slash c e = ground arith

-- The loop, `begun` being the bytes of the part that is read, and `s` those behind them.
pub sanitize_loop_lem :
    (cap : ℕ) (s begun : Bytes) (st : List Bytes)
    → All IsName st
    → Lacks begun
    → length (below st) + 1 + length begun + length s < cap
    → sanitize_loop cap s begun (buffer st) ≡ done (buffer (foldl step st (parts begun s)))
unfolding sanitize_loop
sanitize_loop_lem cap [] begun st h hb fits = sanitize_token_lem cap begun st h hb (omega arith)
sanitize_loop_lem cap (c ∷ s) begun st h hb fits = elim (Bool-cases (c == slash)) [
  | inl e ↦
      rw (e, sanitize_loop, parts)
        (rw (sanitize_token_lem cap begun st h hb (omega arith)) (
          sanitize_loop_lem cap s [] (step st begun) (step-IsName st begun h hb) tt
            (omega (arith, length-step st begun))))
  | inr e ↦
      rw (e, sanitize_loop, parts)
        (sanitize_loop_lem cap s (begun ++ c ∷ []) st h
          (All-append (λ d. d ≢ slash) begun (c ∷ []) hb (not_slash c e, tt))
          (omega (arith, length-append begun (c ∷ []))))
]

reverse-append_name : (x y : Bytes) → reverse (reverse x ++ slash ∷ y) ≡ reverse y ++ slash ∷ x
reverse-append_name x y =
    rw (reverse-append (reverse x) (slash ∷ y), reverse-cons slash y, reverse-reverse x)
      (append_assoc (reverse y) (slash ∷ []) x)

pub render-append : (cs ds : List Bytes) → render (cs ++ ds) ≡ render cs ++ render ds
render-append [] ds = refl
render-append (c ∷ cs) ds = rw (render-append cs ds, append_assoc c (render cs) (render ds))

reverse-below : (st : List Bytes) → reverse (below st) ≡ render (reverse st)
reverse-below [] = refl
reverse-below (c ∷ st) = rw (
  reverse-append_name c (below st),
  reverse-cons c st,
  reverse-below st,
  render-append (reverse st) (c ∷ []),
  append-nil,
)

pub show-render : (cs : List Bytes) → cs ≢ [] → show cs ≡ render cs
show-render [] ne = absurd (ne refl)
show-render (c ∷ cs) ne = refl

pub reverse-buffer : (st : List Bytes) → reverse (buffer st) ≡ show (reverse st)
reverse-buffer [] = refl
reverse-buffer (c ∷ st) =
    reverse-below (c ∷ st)
    ∙ sym (
        show-render (reverse (c ∷ st))
          (λ e. cons-ne-nil c st (sym (reverse-reverse (c ∷ st)) ∙ ap reverse e)))

-- The stack of names that a text leads to from the root, the deepest name first.
abbrev pub walk : Bytes → List Bytes
walk s = foldl step [] (parts [] s)

walk-IsName : (ts st : List Bytes) → All IsName st → All Lacks ts → All IsName (foldl step st ts)
walk-IsName [] st h ht = h
walk-IsName (t ∷ ts) st h ht = walk-IsName ts (step st t) (step-IsName st t h ht.0) ht.1

pub length-walk :
    (s begun : Bytes) (st : List Bytes)
    → length (below (foldl step st (parts begun s)))
      ≤ length (below st) + 1 + length begun + length s
length-walk [] begun st = omega (arith, length-step st begun)
length-walk (c ∷ s) begun st = elim (Bool-cases (c == slash)) [
  | inl e ↦ rw (e, parts) (omega (arith, length-step st begun, length-walk s [] (step st begun)))
  | inr e ↦
      rw (e, parts)
        (omega (arith, length-walk s (begun ++ c ∷ []) st, length-append begun (c ∷ [])))
]

pub length-buffer :
    (st : List Bytes) → (length (buffer st) ≤ 1) ⊎ (length (buffer st) ≤ length (below st))
length-buffer [] = inl (omega arith)
length-buffer (c ∷ st) = inr (omega arith)

pub parts-Lacks : (s begun : Bytes) → Lacks begun → All Lacks (parts begun s)
parts-Lacks [] begun h = (h, tt)
parts-Lacks (c ∷ s) begun h = elim (Bool-cases (c == slash)) [
  | inl e ↦ rw (e, parts) (h, parts-Lacks s [] tt)
  | inr e ↦
      rw (e, parts)
        (parts-Lacks s (begun ++ c ∷ [])
          (All-append (λ d. d ≢ slash) begun (c ∷ []) h (not_slash c e, tt)))
]

snoc-ne-nil : (ps : List Bytes) (c : Bytes) → ps ++ c ∷ [] ≢ []
snoc-ne-nil [] c = λ e. cc
snoc-ne-nil (p ∷ ps) c = λ e. cc

pub show_snoc : (ps : List Bytes) (c : Bytes) → show (ps ++ c ∷ []) ≡ render ps ++ slash ∷ c
show_snoc ps c =
    show-render (ps ++ c ∷ []) (snoc-ne-nil ps c)
    ∙ render-append ps (c ∷ [])
    ∙ ap (λ t. render ps ++ slash ∷ t) (append-nil c)

pub render_snoc : (ps : List Bytes) (c : Bytes) → render (ps ++ c ∷ []) ≡ render ps ++ slash ∷ c
render_snoc ps c = sym (show-render (ps ++ c ∷ []) (snoc-ne-nil ps c)) ∙ show_snoc ps c
