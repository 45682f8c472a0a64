-- ===== src/Base32/Joins.antt =====
-- The shifts and joins of `rfc4648_decode_base32_multi` in rfc4648.c, as arithmetic.
use umsftpd.Prelude.{ℕ, ◌+◌, ◌*◌, ◌/◌, ◌%◌, ◌<◌, ◌≡◌, ap, ◌∙◌, arith, bit_or}
use umsftpd.Prelude.Bits.{bit_or_disjoint}

-- The digits of five bits, joined to bytes again. Of a digit that two bytes share, each of them takes
-- its own bits.
pub first_byte :
    (a x y : ℕ) → a < 256 → x ≡ a / 8 → y / 4 ≡ a % 8 → bit_or (x * 8) (y / 4) % 256 ≡ a
first_byte a x y h p q =
    let join : bit_or (x * 8) (y / 4) ≡ x * 8 + y / 4 = bit_or_disjoint 3 x (y / 4) (omega arith) in
    omega (arith, join)

pub second_byte :
    (b x y z : ℕ)
    → b < 256
    → x % 4 ≡ b / 64
    → y ≡ b / 2 % 32
    → z / 16 ≡ b % 2
    → bit_or (bit_or (x * 64) (y * 2)) (z / 16) % 256 ≡ b
second_byte b x y z h p q r =
    let high : bit_or (x * 64) (y * 2) ≡ x * 64 + y * 2 =
      bit_or_disjoint 6 x (y * 2) (omega arith) in
    let even : x * 64 + y * 2 ≡ (x * 32 + y) * 2 = omega arith in
    let join : bit_or ((x * 32 + y) * 2) (z / 16) ≡ (x * 32 + y) * 2 + z / 16 =
      bit_or_disjoint 1 (x * 32 + y) (z / 16) (omega arith) in
    omega (arith, ap (λ t. bit_or t (z / 16)) (high ∙ even), join)

pub third_byte :
    (c x y : ℕ) → c < 256 → x % 16 ≡ c / 16 → y / 2 ≡ c % 16 → bit_or (x * 16) (y / 2) % 256 ≡ c
third_byte c x y h p q =
    let join : bit_or (x * 16) (y / 2) ≡ x * 16 + y / 2 =
      bit_or_disjoint 4 x (y / 2) (omega arith) in
    omega (arith, join)

pub fourth_byte :
    (d x y z : ℕ)
    → d < 256
    → x % 2 ≡ d / 128
    → y ≡ d / 4 % 32
    → z / 8 ≡ d % 4
    → bit_or (bit_or (x * 128) (y * 4)) (z / 8) % 256 ≡ d
fourth_byte d x y z h p q r =
    let high : bit_or (x * 128) (y * 4) ≡ x * 128 + y * 4 =
      bit_or_disjoint 7 x (y * 4) (omega arith) in
    let even : x * 128 + y * 4 ≡ (x * 32 + y) * 4 = omega arith in
    let join : bit_or ((x * 32 + y) * 4) (z / 8) ≡ (x * 32 + y) * 4 + z / 8 =
      bit_or_disjoint 2 (x * 32 + y) (z / 8) (omega arith) in
    omega (arith, ap (λ t. bit_or t (z / 8)) (high ∙ even), join)

pub fifth_byte :
    (e x y : ℕ) → e < 256 → x % 8 ≡ e / 32 → y ≡ e % 32 → bit_or (x * 32) (y / 1) % 256 ≡ e
fifth_byte e x y h p q =
    let join : bit_or (x * 32) (y / 1) ≡ x * 32 + y / 1 =
      bit_or_disjoint 5 x (y / 1) (omega arith) in
    omega (arith, join)
