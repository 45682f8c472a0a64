-- ===== src/Totp/Laws.antt =====
-- What the codes of rfc6238.c are: the code that RFC 4226 gives, in decimal digits.
use mathlib.Core.List.{reverse}
use mathlib.Core.Path.{subst}
use mathlib.Core.Option.{map, some_inj}
use native.Mathlib.Nat.{mod-lt, pow-suc}
use umsftpd.Prelude.{
  ℕ, zero, suc, ◌%◌, ◌^◌, ◌≤◌, ◌<◌, ◌≡◌, refl, sym, ap, ◌∙◌, [], ◌∷◌, Option, none, some, Bytes,
  All, length, take, Outcome, done, undefined, arith,
}
use umsftpd.Totp.{Config, present, le_bytes, map_done, Crypto, present_digest, generate}
use umsftpd.Prelude.Printf.{padded}
use umsftpd.Totp.Decimal.{
  fixed_digits, IsDigit, length-fixed_digits, fixed_digits-IsDigit, padded-fixed_digits,
}
use umsftpd.Totp.Truncation.{IsByte, IsConfig, IsCrypto, mac_data_lem, truncation, truncate_lem}

-- The code that RFC 4226 gives for a counter; `none` when `HMAC` fails.
unfoldable pub reference : Crypto → Config → ℕ → Option Bytes
reference c config t =
    map
      (λ digest.
        fixed_digits config.digits (truncation (c.md_size config.md) digest % 10 ^ config.digits))
      (c.hmac config.md config.secret (reverse (le_bytes 8 t)))

take-all : (n : ℕ) (s : Bytes) → length s ≤ n → take n s ≡ s
take-all zero [] h = refl
take-all zero (x ∷ s) h = absurd (omega arith)
take-all (suc n) [] h = refl
take-all (suc n) (x ∷ s) h = ap (λ r. x ∷ r) (take-all n s (omega arith))

present_text :
    (digits v : ℕ)
    → 1 ≤ digits
    → digits ≤ 8
    → v < 10 ^ digits
    → take 8 (padded digits v) ≡ fixed_digits digits v
present_text zero v l u h = absurd (omega arith)
present_text (suc width) v l u h =
    ap (take 8) (padded-fixed_digits width v (omega arith) h)
    ∙ take-all 8 (fixed_digits (suc width) v) (omega (arith, length-fixed_digits (suc width) v))

present_lem :
    (config : Config) (v : ℕ)
    → IsConfig config
    → present config v ≡ fixed_digits config.digits (v % 10 ^ config.digits)
unfolding present
present_lem config v ok =
    ap (λ m. take 8 (padded config.digits (v % m))) ok.power
    ∙ present_text config.digits (v % 10 ^ config.digits) ok.some_digits ok.few_digits
        (mod_bound v (10 ^ config.digits) (pow_positive config.digits))
  where
    pow_positive : (k : ℕ) → 0 < 10 ^ k
    pow_positive zero = omega arith
    pow_positive (suc k) = omega (arith, pow_positive k, pow-suc 10 k)

    mod_bound : (n m : ℕ) → 0 < m → n % m < m
    mod_bound n m h = mod-lt n h

-- The code for a counter is that of RFC 4226: the dynamic truncation of the authentication code of the
-- big-endian counter, in decimal with the configured number of digits; there is none where `HMAC` fails,
-- and no byte
-- outside the digest is read. The configuration is as `rfc6238_new` makes it, and an authentication
-- code has the size of its digest, 20 bytes or more.
pub generate_lem :
    (c : Crypto) (config : Config) (t : ℕ)
    → IsCrypto c
    → IsConfig config
    → generate c config t ≡ done (reference c config t)
unfolding generate reference
generate_lem c config t crypto ok =
    ap (λ m. present_digest config (c.md_size config.md) (c.hmac config.md config.secret m))
      (mac_data_lem c.little_endian t)
    ∙ presented (c.hmac config.md config.secret (reverse (le_bytes 8 t)))
        (λ digest e. (crypto.sized config.md config.secret (reverse (le_bytes 8 t)) digest e).1)
  where
    presented :
        (o : Option Bytes)
        → ((digest : Bytes) → o ≡ some digest → All IsByte digest)
        → present_digest config (c.md_size config.md) o
          ≡ done (
              map
                (λ digest.
                  fixed_digits config.digits
                    (truncation (c.md_size config.md) digest % 10 ^ config.digits))
                o)
    presented none h = refl
    presented (some digest) h =
        ap (map_done (λ v. some (present config v)))
          (truncate_lem (c.md_size config.md) digest (crypto.wide config.md) (h digest refl))
        ∙ ap (λ s. done (some s)) (present_lem config (truncation (c.md_size config.md) digest) ok)

reference-IsCode :
    (c : Crypto) (config : Config) (t : ℕ) (code : Bytes)
    → reference c config t ≡ some code
    → (length code ≡ config.digits) × All IsDigit code
unfolding reference
reference-IsCode c config t code e =
    shown (c.hmac config.md config.secret (reverse (le_bytes 8 t))) e
  where
    shown :
        (o : Option Bytes)
        → map
            (λ digest.
              fixed_digits config.digits
                (truncation (c.md_size config.md) digest % 10 ^ config.digits))
            o
          ≡ some code
        → (length code ≡ config.digits) × All IsDigit code
    shown none q = cc
    shown (some digest) q =
        let v = truncation (c.md_size config.md) digest % 10 ^ config.digits in
        subst (λ s. (length s ≡ config.digits) × All IsDigit s) (some_inj.0 q)
          (length-fixed_digits config.digits v, fixed_digits-IsDigit config.digits v)

-- A code has the configured number of characters, all of them decimal
-- digits, for such a configuration and such an `HMAC`.
pub generate-IsDigit :
    (c : Crypto) (config : Config) (t : ℕ) (code : Bytes)
    → IsCrypto c
    → IsConfig config
    → generate c config t ≡ done (some code)
    → (length code ≡ config.digits) × All IsDigit code
generate-IsDigit c config t code crypto ok e =
    reference-IsCode c config t code
      (ap (from_done none) (sym (generate_lem c config t crypto ok) ∙ e))
  where
    from_done : Option Bytes → Outcome (Option Bytes) → Option Bytes
    from_done d (done o) = o
    from_done d undefined = d
