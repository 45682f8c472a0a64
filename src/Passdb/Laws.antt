-- ===== src/Passdb/Laws.antt =====
-- What `passdb_validate_totp` of passdb.c does within the bounds of `int` and `time_t`.
use native.Mathlib.Nat.{mul-le-mul_right}
use umsftpd.Prelude.{
  ℕ, ◌+◌, ◌-◌, ◌*◌, ◌^◌, ◌≤◌, ◌<◌, ◌≡◌, refl, ◌∙◌, true, false, Option, some, Bytes, ◌==◌, done,
  arith,
}
use umsftpd.Prelude.Int.{ℤ, pos, negsuc, ◌+ℤ◌, ◌*ℤ◌, abs}
use umsftpd.Totp.{Config, Crypto, generate_at, generate, time_slice}
use umsftpd.Totp.Truncation.{IsConfig, IsCrypto}
use umsftpd.Totp.Laws.{reference, generate_lem}
use umsftpd.Passdb.{fits_signed, to_int, timestamp_at, is_code, validate_config}
use umsftpd.Passdb.Window.{Window}

-- A clock and a window that keep the arithmetic of `passdb_validate_totp` within its types.
pub record IsTimely (config : Config) (size : ℕ) (timestamp : ℤ) : Type 0 where
  pub slices : 1 ≤ config.slice_time_seconds
  pub short : config.slice_time_seconds < 2 ^ 31
  pub few : size < 2 ^ 31 - 1
  pub near : size * config.slice_time_seconds < 2 ^ 31
  pub clock : abs timestamp < 2 ^ 62

-- The time that an offset stands for.
abbrev pub shifted : Config → ℤ → ℤ → ℤ
shifted config timestamp offset = timestamp +ℤ offset *ℤ pos config.slice_time_seconds

abs-*ℤ : (o : ℤ) (n : ℕ) → abs (o *ℤ pos n) ≡ abs o * n
abs-*ℤ (pos m) n = ground arith
abs-*ℤ (negsuc m) n = ground arith

abs-+ℤ : (a b : ℤ) → abs (a +ℤ b) ≤ abs a + abs b
abs-+ℤ (pos m) (pos n) = ground arith
abs-+ℤ (pos m) (negsuc n) = ground arith
abs-+ℤ (negsuc m) (pos n) = ground arith
abs-+ℤ (negsuc m) (negsuc n) = ground arith

fits_signed-abs : (bits : ℕ) (z : ℤ) → abs z < 2 ^ bits → fits_signed bits z ≡ true
fits_signed-abs bits (pos n) h = ground arith
fits_signed-abs bits (negsuc n) h = ground arith

to_int_pos : (n : ℕ) → n < 2 ^ 31 → to_int n ≡ pos n
to_int_pos n h = ground arith

times_bound : (a b n : ℕ) → a ≤ b → a * n ≤ b * n
times_bound a b n h = omega (arith, mul-le-mul_right n h)

timestamp_at-done :
    (timestamp shift : ℤ)
    → abs shift < 2 ^ 31
    → abs timestamp < 2 ^ 62
    → timestamp_at timestamp shift ≡ done (timestamp +ℤ shift)
timestamp_at-done timestamp shift hs ht =
    rw
      (
        fits_signed-abs 31 shift hs,
        fits_signed-abs 63 (timestamp +ℤ shift) (omega (arith, abs-+ℤ timestamp shift)),
      )
      refl

pub generate_at-generate :
    (c : Crypto) (config : Config) (t : ℤ)
    → 1 ≤ config.slice_time_seconds
    → generate_at c config t ≡ generate c config (time_slice t config.slice_time_seconds)
unfolding generate_at
generate_at-generate c config t h = rw (positive config.slice_time_seconds h) refl
  where
    positive : (n : ℕ) → 1 ≤ n → (n == 0) ≡ false
    positive n h = ground arith

-- The code for an offset.
abbrev pub expected : Crypto → Config → ℤ → ℤ → Option Bytes
expected c config timestamp o =
    reference c config (time_slice (shifted config timestamp o) config.slice_time_seconds)

module _ (c : Crypto) (config : Config) (size : ℕ) (timestamp : ℤ) (crypto : IsCrypto c)
    (ok : IsConfig config) (timely : IsTimely config size timestamp) where
  pub generate_at_lem :
      (t : ℤ)
      → generate_at c config t ≡ done (reference c config (time_slice t config.slice_time_seconds))
  generate_at_lem t =
      generate_at-generate c config t timely.slices
      ∙ generate_lem c config (time_slice t config.slice_time_seconds) crypto ok

  near_shift : (o : ℤ) → Window size o → abs (o *ℤ pos config.slice_time_seconds) < 2 ^ 31
  near_shift o h = omega (
    arith,
    abs-*ℤ o config.slice_time_seconds,
    times_bound (abs o) size config.slice_time_seconds h,
    timely.near,
  )

  -- Within the window, a code is compared with the one for the time that is that many slices away.
  pub validate_config_lem :
      (provided : Bytes) (o : ℤ)
      → Window size o
      → validate_config c provided timestamp o (some config)
        ≡ done (is_code provided (expected c config timestamp o))
  unfolding validate_config
  validate_config_lem provided o h =
      rw
        (
          to_int_pos config.slice_time_seconds timely.short,
          timestamp_at-done timestamp (o *ℤ pos config.slice_time_seconds) (near_shift o h)
              timely.clock,
          generate_at_lem (shifted config timestamp o),
        )
        refl
