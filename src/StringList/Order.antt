-- ===== src/StringList/Order.antt =====
-- `strcmp`, the lexicographic order of unsigned bytes, is a total order.
use umsftpd.Prelude.{ℕ, ◌<◌, ◌⊎◌, inl, inr, ◌≡◌, ◌≢◌, refl, [], ◌∷◌, Bytes, arith}
use Prim.Native.Nat.{compare}
pub use Prim.Native.Nat.{Ordering}

abbrev pub strcmp : Bytes → Bytes → Ordering
strcmp [] [] = Ordering.eq
strcmp [] (y ∷ b) = Ordering.lt
strcmp (x ∷ a) [] = Ordering.gt
strcmp (x ∷ a) (y ∷ b) = elim (compare x y) [
  | Ordering.lt ↦ Ordering.lt
  | Ordering.gt ↦ Ordering.gt
  | Ordering.eq ↦ strcmp a b
]

pub strcmp_refl : (a : Bytes) → strcmp a a ≡ Ordering.eq
strcmp_refl [] = refl
strcmp_refl (x ∷ a) = ground (arith, strcmp_refl a)

pub strcmp-eq : (a b : Bytes) → strcmp a b ≡ Ordering.eq → a ≡ b
strcmp-eq [] [] h = refl
strcmp-eq [] (y ∷ b) h = cc
strcmp-eq (x ∷ a) [] h = cc
strcmp-eq (x ∷ a) (y ∷ b) h = ground (arith, strcmp-eq a b)

pub strcmp-lt : (a b : Bytes) → strcmp a b ≡ Ordering.lt → strcmp b a ≡ Ordering.gt
strcmp-lt [] [] h = cc
strcmp-lt [] (y ∷ b) h = refl
strcmp-lt (x ∷ a) [] h = cc
strcmp-lt (x ∷ a) (y ∷ b) h = ground (arith, strcmp-lt a b)

pub strcmp-gt : (a b : Bytes) → strcmp a b ≡ Ordering.gt → strcmp b a ≡ Ordering.lt
strcmp-gt [] [] h = cc
strcmp-gt [] (y ∷ b) h = cc
strcmp-gt (x ∷ a) [] h = refl
strcmp-gt (x ∷ a) (y ∷ b) h = ground (arith, strcmp-gt a b)

-- `a` stands before `b`, or they are equal.
abbrev pub Le : Bytes → Bytes → Type 0
Le a b = strcmp a b ≢ Ordering.gt

Le-cons :
    (x : ℕ) (a : Bytes) (y : ℕ) (b : Bytes) → Le (x ∷ a) (y ∷ b) → (x < y) ⊎ ((x ≡ y) × Le a b)
Le-cons x a y b h = go (compare x y) refl
  where
    go : (o : Ordering) → compare x y ≡ o → (x < y) ⊎ ((x ≡ y) × Le a b)
    go Ordering.lt e = inl (ground arith)
    go Ordering.eq e = inr (ground arith, λ g. h (rw (e, strcmp) g))
    go Ordering.gt e = absurd (h (rw (e, strcmp)))

cons-Le_lt : (x : ℕ) (a : Bytes) (y : ℕ) (b : Bytes) → x < y → Le (x ∷ a) (y ∷ b)
cons-Le_lt x a y b h = λ e. ground arith

cons-Le_eq : (x : ℕ) (a b : Bytes) → Le a b → Le (x ∷ a) (x ∷ b)
cons-Le_eq x a b h = λ e. ground arith

Le-trans_cons :
    (x : ℕ) (a : Bytes) (y : ℕ) (b : Bytes) (z : ℕ) (c : Bytes)
    → (Le a b → Le b c → Le a c)
    → (x < y) ⊎ ((x ≡ y) × Le a b)
    → (y < z) ⊎ ((y ≡ z) × Le b c)
    → Le (x ∷ a) (z ∷ c)
Le-trans_cons x a y b z c ih (inl p) (inl q) = cons-Le_lt x a z c (omega arith)
Le-trans_cons x a y b z c ih (inl p) (inr (e, q)) = cons-Le_lt x a z c (omega arith)
Le-trans_cons x a y b z c ih (inr (e, p)) (inl q) = cons-Le_lt x a z c (omega arith)
Le-trans_cons x a y b z c ih (inr (e, p)) (inr (e', q)) = rw (e, e') (cons-Le_eq z a c (ih p q))

pub Le-trans : (a b c : Bytes) → Le a b → Le b c → Le a c
Le-trans [] [] c h k = k
Le-trans [] (y ∷ b) [] h k = absurd (k refl)
Le-trans [] (y ∷ b) (z ∷ c) h k = cc
Le-trans (x ∷ a) [] c h k = absurd (h refl)
Le-trans (x ∷ a) (y ∷ b) [] h k = absurd (k refl)
Le-trans (x ∷ a) (y ∷ b) (z ∷ c) h k =
    Le-trans_cons x a y b z c (Le-trans a b c) (Le-cons x a y b h) (Le-cons y b z c k)
