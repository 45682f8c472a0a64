-- ===== src/Passdb/Validate.antt =====
-- Which texts `passdb_validate_around` of passdb.c accepts for an entry with one-time codes.
use umsftpd.Prelude.{
  ℕ, ◌^◌, ◌<◌, ◌≡◌, refl, sym, ap, ◌∙◌, Bool, true, false, [], ◌++◌, some, Bytes, length, leb, done,
  arith,
}
use umsftpd.Prelude.Int.{ℤ}
use umsftpd.Totp.{Config, Crypto, time_slice}
use umsftpd.Totp.Truncation.{IsConfig, IsCrypto}
use umsftpd.Totp.Laws.{generate-IsDigit}
use umsftpd.Passdb.{
  Entry, Derivations, derivation_function, derive, split_code, validate_derived, validate_around,
}
use umsftpd.Passdb.Laws.{IsTimely, shifted, generate_at-generate}
use umsftpd.Passdb.Accept.{
  IsPassphrase, IsCurrent, Decides, is_digest_iff, split_code_append, derive_append,
  validate_derived_lem,
}

module _ (os : Derivations) (c : Crypto) (stack : Bytes) (entry : Entry) (config : Config)
    (timestamp : ℤ) (enabled : entry.totp ≡ some config) (crypto : IsCrypto c)
    (ok : IsConfig config) (timely : IsTimely config entry.totp_window_size timestamp) where
  split_enabled :
      (passphrase : Bytes) (n : ℕ) (code : Bytes)
      → split_code (some config) passphrase ≡ (n, code)
      → validate_around os c stack entry passphrase timestamp
        ≡ validate_derived c entry (derive os entry passphrase n stack) code timestamp
  unfolding validate_around
  split_enabled passphrase n code e =
      ap
        (λ given.
          validate_derived c entry (derive os entry passphrase given.0 stack) given.1 timestamp)
        (ap (λ t. split_code t passphrase) enabled ∙ e)

  -- An entry with one-time codes accepts a text that ends in as many characters as its codes have
  -- exactly when what stands before them is its passphrase and they are the code for the time that
  -- is some number of slices, at most its window, before or after the current one. The search for
  -- that number comes to an end. This is for slices, windows and clocks within the bounds of `int` and
  -- `time_t`, passphrases shorter than 4 GiB, and
  -- a configuration and an `HMAC` as documented.
  pub validate_around_lem :
      (p code : Bytes)
      → length code ≡ config.digits
      → length p < 2 ^ 32
      → Decides
          (validate_around os c stack entry (p ++ code) timestamp)
          (IsPassphrase os stack entry p × IsCurrent c config entry.totp_window_size timestamp code)
  validate_around_lem p code e h =
      let derived = derivation_function os entry.kdf entry p stack in
      let same =
        split_enabled (p ++ code) (length p) code (split_code_append config p code e)
        ∙ ap (λ d. validate_derived c entry d code timestamp)
            (derive_append os entry p code stack h) in
      let (b, ends, iff) =
        validate_derived_lem c entry config timestamp enabled crypto ok timely derived code in
      let digest = is_digest_iff entry derived.1 in
      (
        b,
        same ∙ ends,
        (
          λ q. (((iff.0 q).0, digest.0 (iff.0 q).1), (iff.0 q).2),
          λ r. iff.1 (r.0.0, digest.1 r.0.1, r.1),
        ),
      )

  -- No code is empty.
  no_empty_code : IsCurrent c config entry.totp_window_size timestamp [] → ⊥
  no_empty_code (o, inside, e) =
      let t = shifted config timestamp o in
      let generated = sym (generate_at-generate c config t timely.slices) ∙ e in
      let digits =
        generate-IsDigit c config (time_slice t config.slice_time_seconds) [] crypto ok generated in
      omega (arith, digits.0, ok.some_digits)

  -- A text shorter than a code is refused, whatever the passphrase is, for slices, windows and clocks
  -- within the bounds of `int` and `time_t` and a configuration and an `HMAC` as documented.
  pub validate_around-short :
      (passphrase : Bytes)
      → length passphrase < config.digits
      → validate_around os c stack entry passphrase timestamp ≡ done false
  validate_around-short passphrase h =
      let derived = derive os entry passphrase (length passphrase) stack in
      let (b, ends, iff) =
        validate_derived_lem c entry config timestamp enabled crypto ok timely derived [] in
      split_enabled passphrase (length passphrase) []
        (rw (below config.digits (length passphrase) h) refl)
      ∙ ends
      ∙ ap done (refused b (λ q. no_empty_code (iff.0 q).2))
    where
      below : (n m : ℕ) → m < n → leb n m ≡ false
      below n m h = ground arith

      refused : (b : Bool) → (b ≡ true → ⊥) → b ≡ false
      refused true f = absurd (f refl)
      refused false f = refl
