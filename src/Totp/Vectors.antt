-- ===== src/Totp/Vectors.antt =====
-- Authentication codes of RFC 4226, appendix D, and a configuration for them.
use mathlib.Core.Option.{some_inj}
use mathlib.Core.Path.{subst}
use umsftpd.Prelude.{
  ℕ, ◌≡◌, refl, Bool, true, false, ◌&&◌, [], ◌∷◌, some, Bytes, All, codes, length, get_or, ltb,
  ◌==◌, if◌then◌else◌, if-cases, arith,
}
use umsftpd.Totp.{sha1, Config, Crypto}
use umsftpd.Totp.Truncation.{IsByte, IsConfig, IsCrypto}

-- The authentication codes of the counters 0 and 1 there.
abbrev first_mac : Bytes
first_mac =
    0xcc ∷ 0x93 ∷ 0xcf ∷ 0x18 ∷ 0x50 ∷ 0x8d ∷ 0x94 ∷ 0x93 ∷ 0x4c ∷ 0x64 ∷ 0xb6 ∷ 0x5d ∷ 0x8b ∷ 0xa7
    ∷ 0x66 ∷ 0x7f ∷ 0xb7 ∷ 0xcd ∷ 0xe4 ∷ 0xb0 ∷ []

abbrev second_mac : Bytes
second_mac =
    0x75 ∷ 0xa4 ∷ 0x8a ∷ 0x19 ∷ 0xd4 ∷ 0xcb ∷ 0xe1 ∷ 0x00 ∷ 0x64 ∷ 0x4e ∷ 0x8a ∷ 0xc1 ∷ 0x39 ∷ 0x7e
    ∷ 0xea ∷ 0x74 ∷ 0x7a ∷ 0x2d ∷ 0x33 ∷ 0xab ∷ []

abbrev all_bytes : Bytes → Bool
all_bytes [] = true
all_bytes (b ∷ bs) = ltb b 256 && all_bytes bs

all_bytes-IsByte : (bs : Bytes) → all_bytes bs ≡ true → All IsByte bs
all_bytes-IsByte [] h = tt
all_bytes-IsByte (b ∷ bs) h = split (ltb b 256) (all_bytes bs) refl h (all_bytes-IsByte bs)
  where
    below : (n : ℕ) → ltb n 256 ≡ true → IsByte n
    below n e = ground arith

    split :
        (x y : Bool)
        → ltb b 256 ≡ x
        → (x && y) ≡ true
        → (y ≡ true → All IsByte bs)
        → IsByte b × All IsByte bs
    split true true p e more = (below b p, more refl)
    split true false p e more = cc
    split false y p e more = cc

-- `HMAC` for two messages, on a little-endian machine; the message of the counter 1 ends in 1.
abbrev pub rfc_crypto : Crypto
rfc_crypto = record {
  little_endian = true;
  md_size = λ md. 20;
  hmac = λ md key message. if get_or message 7 0 == 1 then some second_mac else some first_mac;
}

pub rfc_crypto-IsCrypto : IsCrypto rfc_crypto
rfc_crypto-IsCrypto = record {
  wide = λ md. omega arith;
  sized = λ md key message digest.
      if-cases (λ o. o ≡ some digest → (length digest ≡ 20) × All IsByte digest)
        (get_or message 7 0 == 1) {x = some second_mac} {y = some first_mac}
        (λ _ e. is_mac second_mac digest refl (all_bytes-IsByte second_mac refl) e)
        (λ _ e. is_mac first_mac digest refl (all_bytes-IsByte first_mac refl) e);
}
  where
    is_mac :
        (mac digest : Bytes)
        → length mac ≡ 20
        → All IsByte mac
        → some mac ≡ some digest
        → (length digest ≡ 20) × All IsByte digest
    is_mac mac digest l h e = subst (λ d. (length d ≡ 20) × All IsByte d) (some_inj.0 e) (l, h)

abbrev pub rfc_config : Config
rfc_config = record {
  md = sha1;
  modulo = 1000000;
  digits = 6;
  slice_time_seconds = 30;
  secret = codes "12345678901234567890";
}

pub rfc_config-IsConfig : IsConfig rfc_config
rfc_config-IsConfig = record { some_digits = omega arith; few_digits = omega arith; power = refl }
