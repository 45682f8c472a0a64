-- ===== src/Prelude/Results.antt =====
-- The outcome of code that may run into undefined behaviour: a value, or `undefined` for a write
-- past the end of a buffer or a use of an invalid pointer.
pub data Outcome {ℓ} (A : Type ℓ) : Type ℓ where
  done : A → Outcome A
  undefined : Outcome A

infixl 5 ◌>>=◌
abbrev pub ◌>>=◌ {ℓ κ} : {A : Type ℓ} {B : Type κ} → Outcome A → (A → Outcome B) → Outcome B
done a >>= f = f a
undefined >>= f = undefined
