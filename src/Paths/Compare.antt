-- ===== src/Paths/Compare.antt =====
-- `truncate_trailing_slash` and `pathcmp` (strings.c) on the paths of lists of names.
use umsftpd.Prelude.{
  ℕ, zero, suc, ◌-◌, ◌≤◌, ◌<◌, true, false, ◌≢◌, ◌≡◌, refl, sym, ap, ◌∙◌, List, [], ◌∷◌, ◌++◌,
  append_assoc, append-nil, Bytes, ◌↔◌, ◌&&◌, All, arith, ◌==◌, if◌then◌else◌, Bool-cases, inl, inr,
  length, take, char_at, strn_eq, str_eq, str_eq_iff, ==_iff, length-append, take-append,
}
use umsftpd.Paths.{slash, ends_in_slash, pathcmp, truncated, truncate_trailing_slash}
use umsftpd.Paths.Parts.{render-injective}
use umsftpd.Paths.Names.{Lacks, IsName, render, show}

different : (m n : ℕ) → (m == n) ≡ false → m ≢ n
different m n e = ground arith

not_slash : (b : ℕ) → b ≢ slash → (b == slash) ≡ false
not_slash b ne = ground arith

length-snoc : (x : Bytes) (b : ℕ) → length (x ++ b ∷ []) ≡ suc (length x)
length-snoc x b = omega (arith, length-append x (b ∷ []))

char_at-append : (x y : Bytes) (k : ℕ) → k < length x → char_at (x ++ y) k ≡ char_at x k
char_at-append [] y k h = absurd (omega arith)
char_at-append (a ∷ x) y zero h = refl
char_at-append (a ∷ x) y (suc k) h = char_at-append x y k (omega arith)

char_at-length : (x : Bytes) (b : ℕ) (y : Bytes) → char_at (x ++ b ∷ y) (length x) ≡ b
char_at-length [] b y = refl
char_at-length (a ∷ x) b y = char_at-length x b y

truncated-append : (x y : Bytes) (n : ℕ) → n ≤ length x → truncated (x ++ y) n ≡ truncated x n
unfolding truncated
truncated-append x y zero h = refl
truncated-append x y (suc n) h = ground (arith, char_at-append x y n, truncated-append x y n)

truncated-le : (x : Bytes) (n : ℕ) → truncated x n ≤ n
unfolding truncated
truncated-le x zero = omega arith
truncated-le x (suc n) = ground (arith, truncated-le x n)

take-append_le : (x y : Bytes) (n : ℕ) → n ≤ length x → take n (x ++ y) ≡ take n x
take-append_le x y zero h = refl
take-append_le [] y (suc n) h = absurd (omega arith)
take-append_le (a ∷ x) y (suc n) h = ap (λ t. a ∷ t) (take-append_le x y n (omega arith))

take-length : (x : Bytes) → take (length x) x ≡ x
take-length [] = refl
take-length (a ∷ x) = ap (λ t. a ∷ t) (take-length x)

truncated_snoc :
    (x : Bytes) (b : ℕ)
    → truncated (x ++ b ∷ []) (suc (length x))
      ≡ (if b == slash then truncated x (length x) else suc (length x))
unfolding truncated
truncated_snoc x b = ground (arith, char_at-length x b [], truncated-append x (b ∷ []) (length x))

-- A slash at the end goes, and so do all those before it.
pub truncate_slash :
    (x : Bytes) → truncate_trailing_slash (x ++ slash ∷ []) ≡ truncate_trailing_slash x
unfolding truncate_trailing_slash
truncate_slash x =
    rw (length-snoc x slash, truncated_snoc x slash)
      (take-append_le x (slash ∷ []) (truncated x (length x)) (truncated-le x (length x)))

truncate_kept :
    (x : Bytes) (b : ℕ) → b ≢ slash → truncate_trailing_slash (x ++ b ∷ []) ≡ x ++ b ∷ []
unfolding truncate_trailing_slash
truncate_kept x b ne =
    rw (length-snoc x b, truncated_snoc x b, not_slash b ne)
      (ap (λ n. take n (x ++ b ∷ [])) (sym (length-snoc x b)) ∙ take-length (x ++ b ∷ []))

-- The last byte of the path of a list of names is no slash.
record Tail (p : Bytes) : Type 0 where
  front : Bytes
  last : ℕ
  split : p ≡ front ++ last ∷ []
  plain : last ≢ slash

name-Tail : (b : ℕ) (c : Bytes) → Lacks (b ∷ c) → Tail (b ∷ c)
name-Tail b [] h = record { front = []; last = b; split = refl; plain = h.0 }
name-Tail b (d ∷ c) h =
    let t : Tail (d ∷ c) = name-Tail d c h.1 in
    record { front = b ∷ t.front; last = t.last; split = ap (λ x. b ∷ x) t.split; plain = t.plain }

append-Tail : (x : Bytes) {p : Bytes} → Tail p → Tail (x ++ p)
append-Tail x t = record {
  front = x ++ t.front;
  last = t.last;
  split = ap (λ y. x ++ y) t.split ∙ sym (append_assoc x t.front (t.last ∷ []));
  plain = t.plain;
}

render-Tail : (c : Bytes) (cs : List Bytes) → All IsName (c ∷ cs) → Tail (render (c ∷ cs))
render-Tail [] cs h = absurd (h.0.0 refl)
render-Tail (b ∷ c) [] h = rw append-nil (append-Tail (slash ∷ []) (name-Tail b c h.0.1))
render-Tail (b ∷ c) (d ∷ cs) h = append-Tail (slash ∷ b ∷ c) (render-Tail d cs h.1)

truncate-Tail : {p : Bytes} → Tail p → truncate_trailing_slash p ≡ p
truncate-Tail t = rw t.split (truncate_kept t.front t.last t.plain)

-- The stored form of the path of names, with or without a slash at its end; the root is empty.
pub truncate-show :
    (cs : List Bytes) → All IsName cs → truncate_trailing_slash (show cs) ≡ render cs
truncate-show [] h = truncate_slash [] ∙ unfold truncate_trailing_slash truncated in refl
truncate-show (c ∷ cs) h = truncate-Tail (render-Tail c cs h)

-- The bytes that `pathcmp` compares: all but one slash at the end.
abbrev chop_length : Bytes → ℕ
chop_length p = if ends_in_slash p then length p - 1 else length p

abbrev pub chop : Bytes → Bytes
chop p = take (chop_length p) p

chop_length-le : (p : Bytes) → chop_length p ≤ length p
chop_length-le p = elim (Bool-cases (ends_in_slash p)) [
  | inl e ↦ rw e (omega arith)
  | inr e ↦ rw e (omega arith)
]

length-take_le : (n : ℕ) (x : Bytes) → n ≤ length x → length (take n x) ≡ n
length-take_le zero x h = refl
length-take_le (suc n) [] h = absurd (omega arith)
length-take_le (suc n) (a ∷ x) h = ap suc (length-take_le n x (omega arith))

strn_eq-take :
    (n : ℕ) (a b : Bytes)
    → n ≤ length a
    → n ≤ length b
    → strn_eq n a b ≡ str_eq (take n a) (take n b)
strn_eq-take zero a b h k = refl
strn_eq-take (suc n) [] b h k = absurd (omega arith)
strn_eq-take (suc n) (x ∷ a) [] h k = absurd (omega arith)
strn_eq-take (suc n) (x ∷ a) (y ∷ b) h k =
    ap (λ t. (x == y) && t) (strn_eq-take n a b (omega arith) (omega arith))

str_eq-length : (a b : Bytes) → length a ≢ length b → str_eq a b ≡ false
str_eq-length [] [] h = absurd (h refl)
str_eq-length [] (y ∷ b) h = refl
str_eq-length (x ∷ a) [] h = refl
str_eq-length (x ∷ a) (y ∷ b) h = ground (arith, str_eq-length a b (λ e. h (ap suc e)))

-- `pathcmp` is equality of the paths with one slash at the end taken off.
pub pathcmp-chop : (p q : Bytes) → pathcmp p q ≡ str_eq (chop p) (chop q)
unfolding pathcmp
pathcmp-chop p q = elim (Bool-cases (chop_length p == chop_length q)) [
  | inl e ↦
      let e' : chop_length p ≡ chop_length q = (==_iff (chop_length p) (chop_length q)).0 e in
      rw e (
        strn_eq-take (chop_length p) p q (chop_length-le p) (rw e' (chop_length-le q))
        ∙ ap (λ n. str_eq (take (chop_length p) p) (take n q)) e')
  | inr e ↦ rw e (
      sym (
        str_eq-length (chop p) (chop q) (λ h. different (chop_length p) (chop_length q) e (
          sym (length-take_le (chop_length p) p (chop_length-le p))
          ∙ h
          ∙ length-take_le (chop_length q) q (chop_length-le q)))))
]

ends_snoc : (x : Bytes) (b : ℕ) → ends_in_slash (x ++ b ∷ []) ≡ (b == slash)
ends_snoc x b =
    let e : length (x ++ b ∷ []) - 1 ≡ length x = omega (arith, length-snoc x b) in
    rw (e, length-snoc x b, char_at-length x b []) (ground arith)

chop-slash : (x : Bytes) → chop (x ++ slash ∷ []) ≡ x
chop-slash x =
    let e : length (x ++ slash ∷ []) - 1 ≡ length x = omega (arith, length-snoc x slash) in
    rw (ends_snoc x slash) (rw e (take-append x (slash ∷ [])))

chop_kept : (x : Bytes) (b : ℕ) → b ≢ slash → chop (x ++ b ∷ []) ≡ x ++ b ∷ []
chop_kept x b ne = rw (ends_snoc x b, not_slash b ne) (take-length (x ++ b ∷ []))

chop-Tail : {p : Bytes} → Tail p → chop p ≡ p
chop-Tail t = rw t.split (chop_kept t.front t.last t.plain)

chop-render : (cs : List Bytes) → All IsName cs → chop (render cs) ≡ render cs
chop-render [] h = refl
chop-render (c ∷ cs) h = chop-Tail (render-Tail c cs h)

chop-show : (cs : List Bytes) → All IsName cs → chop (show cs) ≡ render cs
chop-show [] h = refl
chop-show (c ∷ cs) h = chop-Tail (render-Tail c cs h)

-- A stored path fits a path that is looked up exactly when they have the same names, whether or
-- not that path ends in a slash.
pub pathcmp-render :
    (cs ds : List Bytes)
    → All IsName cs
    → All IsName ds
    → ((pathcmp (render cs) (show ds) ≡ true) ↔ (cs ≡ ds))
      × ((pathcmp (render cs) (render ds ++ slash ∷ []) ≡ true) ↔ (cs ≡ ds))
pathcmp-render cs ds h k = (
  (
    λ e. same (chop (show ds)) (chop-show ds k) (sym (pathcmp-chop (render cs) (show ds)) ∙ e),
    λ e. pathcmp-chop (render cs) (show ds) ∙ back (chop (show ds)) (chop-show ds k) e,
  ),
  (
    λ e.
        same (chop (render ds ++ slash ∷ [])) (chop-slash (render ds))
          (sym (pathcmp-chop (render cs) (render ds ++ slash ∷ [])) ∙ e),
    λ e.
        pathcmp-chop (render cs) (render ds ++ slash ∷ [])
        ∙ back (chop (render ds ++ slash ∷ [])) (chop-slash (render ds)) e,
  ),
)
  where
    same : (q : Bytes) → q ≡ render ds → str_eq (chop (render cs)) q ≡ true → cs ≡ ds
    same q e t =
        render-injective cs ds h k
          (sym (chop-render cs h) ∙ (str_eq_iff (chop (render cs)) q).0 t ∙ e)

    back : (q : Bytes) → q ≡ render ds → cs ≡ ds → str_eq (chop (render cs)) q ≡ true
    back q e p = (str_eq_iff (chop (render cs)) q).1 (chop-render cs h ∙ ap render p ∙ sym e)
