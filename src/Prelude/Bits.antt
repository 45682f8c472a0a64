-- ===== src/Prelude/Bits.antt =====
-- Masks and joins of bits as arithmetic, for every width.
use Prim.Native.Nat.{
  ℕ, zero, suc, ◌+◌, ◌-◌, ◌*◌, ◌/◌, ◌%◌, ◌^◌, ◌≤◌, ◌<◌, min, max, bit_and, bit_or, digits,
  bit_and-bitwise, bit_or-bitwise,
}
use mathlib.Core.Path.{◌≡◌, refl, ap, ◌∙◌}
use native.Mathlib.Nat.{pow-suc, one-le-pow, add-mul-mod_self_left, mod-eq_of_lt}
use native.Mathlib.Omega.{arith}

-- The recursion that a bit operation stands for, freed of its fuel.
module _ (z : ℕ → ℕ) (f : ℕ → ℕ → ℕ) where
  enough_fuel : (n m a b : ℕ) → a ≤ n → a ≤ m → digits z f n a b ≡ digits z f m a b
  enough_fuel zero zero a b p q = refl
  enough_fuel zero (suc m) zero b p q = refl
  enough_fuel zero (suc m) (suc a) b p q = absurd (omega arith)
  enough_fuel (suc n) zero zero b p q = refl
  enough_fuel (suc n) zero (suc a) b p q = absurd (omega arith)
  enough_fuel (suc n) (suc m) zero b p q = refl
  enough_fuel (suc n) (suc m) (suc a) b p q =
      omega (arith, enough_fuel n m (suc a / 2) (b / 2) (omega arith) (omega arith))

-- The lowest bit of a conjunction, and the others.
bit_and_low : (a b : ℕ) → bit_and a b ≡ bit_and (a / 2) (b / 2) * 2 + min (a % 2) (b % 2)
bit_and_low zero b = omega (arith, bit_and-bitwise 0 b, bit_and-bitwise 0 (b / 2))
bit_and_low (suc a) b = omega (
  arith,
  bit_and-bitwise (suc a) b,
  bit_and-bitwise (suc a / 2) (b / 2),
  enough_fuel (λ x. 0) min a (suc a / 2) (suc a / 2) (b / 2) (omega arith) (omega arith),
)

-- The lowest bit of a disjunction, and the others.
bit_or_low : (a b : ℕ) → bit_or a b ≡ bit_or (a / 2) (b / 2) * 2 + max (a % 2) (b % 2)
bit_or_low zero b = omega (arith, bit_or-bitwise 0 b, bit_or-bitwise 0 (b / 2))
bit_or_low (suc a) b = omega (
  arith,
  bit_or-bitwise (suc a) b,
  bit_or-bitwise (suc a / 2) (b / 2),
  enough_fuel (λ x. x) max a (suc a / 2) (suc a / 2) (b / 2) (omega arith) (omega arith),
)

bit_and-zero_below : (n a : ℕ) → a ≤ n → bit_and a 0 ≡ 0
bit_and-zero_below zero zero h = refl
bit_and-zero_below zero (suc a) h = absurd (omega arith)
bit_and-zero_below (suc n) a h = ground (arith, bit_and_low a 0, bit_and-zero_below n (a / 2))

bit_or-zero_below : (n a : ℕ) → a ≤ n → bit_or a 0 ≡ a
bit_or-zero_below zero zero h = refl
bit_or-zero_below zero (suc a) h = absurd (omega arith)
bit_or-zero_below (suc n) a h = ground (arith, bit_or_low a 0, bit_or-zero_below n (a / 2))

mod_double : (a m : ℕ) → 0 < m → a % (m * 2) ≡ (a / 2) % m * 2 + a % 2
mod_double a m h =
    let q = a / 2 / m in
    let r = a / 2 % m in
    let split : a ≡ r * 2 + a % 2 + m * 2 * q = grind arith in
    let small : r * 2 + a % 2 < m * 2 = grind arith in
    ap (λ t. t % (m * 2)) split
    ∙ add-mul-mod_self_left (r * 2 + a % 2) (m * 2) q
    ∙ mod-eq_of_lt small

mask_step :
    (a m : ℕ) → 0 < m → bit_and (a / 2) (m - 1) ≡ a / 2 % m → bit_and a (m * 2 - 1) ≡ a % (m * 2)
mask_step a m h e =
    let half : (m * 2 - 1) / 2 ≡ m - 1 = omega arith in
    omega (arith, bit_and_low a (m * 2 - 1), ap (bit_and (a / 2)) half, mod_double a m h, e)

join_step :
    (a b m : ℕ) → bit_or (a * m) (b / 2) ≡ a * m + b / 2 → bit_or (a * (m * 2)) b ≡ a * (m * 2) + b
join_step a b m e =
    let half : a * (m * 2) / 2 ≡ a * m = grind arith in
    let even : a * (m * 2) % 2 ≡ 0 = grind arith in
    let all : a * (m * 2) ≡ a * m * 2 = grind arith in
    omega (arith, bit_or_low (a * (m * 2)) b, ap (λ t. bit_or t (b / 2)) half, even, all, e)

two_pow : (k : ℕ) → 2 ^ suc k ≡ 2 ^ k * 2
two_pow k = grind (arith, pow-suc)

-- A mask of the lowest `k` bits is a remainder.
pub bit_and_mask : (k a : ℕ) → bit_and a (2 ^ k - 1) ≡ a % 2 ^ k
bit_and_mask zero a = omega (arith, bit_and-zero_below a a (omega arith))
bit_and_mask (suc k) a =
    rw (two_pow k) (mask_step a (2 ^ k) (one-le-pow k 2 (omega arith)) (bit_and_mask k (a / 2)))

-- Bits of two numbers that do not overlap.
pub bit_or_disjoint : (k a b : ℕ) → b < 2 ^ k → bit_or (a * 2 ^ k) b ≡ a * 2 ^ k + b
bit_or_disjoint zero a b h = ground (arith, bit_or-zero_below a a)
bit_or_disjoint (suc k) a b h =
    rw (two_pow k) (join_step a b (2 ^ k) (bit_or_disjoint k a (b / 2) (omega (arith, two_pow k))))
