-- ===== src/Passdb/Accept.antt =====
-- Which passphrases passdb.c accepts.
use mathlib.Core.Option.{some_inj}
use umsftpd.Prelude.{
  ℕ, ◌-◌, ◌%◌, ◌^◌, ◌≤◌, ◌<◌, ◌≡◌, refl, sym, ap, ◌∙◌, Bool, true, false, not, ◌&&◌, ◌||◌, ◌++◌,
  Option, none, some, Bytes, length, length-append, take, take-append, drop-append, leb, str_eq,
  str_eq_iff, ◌↔◌, ◌⊎◌, inl, inr, Outcome, done, undefined, ◌>>=◌, if◌then◌else◌, arith,
}
use umsftpd.Prelude.Int.{ℤ}
use umsftpd.Totp.{Config, Crypto, generate_at}
use umsftpd.Totp.Truncation.{IsConfig, IsCrypto}
use umsftpd.Passdb.{
  Kdf, kdf_none, kdf_pbkdf2_sha256, kdf_scrypt, Entry, Derivations, derivation_function, derive,
  is_code, is_none, is_digest, split_code, pass_size, validate_config, validate_window,
  validate_derived,
}
use umsftpd.Passdb.Window.{Window, Finds, validate_window-Finds}
use umsftpd.Passdb.Laws.{IsTimely, shifted, expected, validate_config_lem, generate_at_lem}

-- A passphrase whose derivation succeeds and gives the hash of the entry, if the entry asks for one.
abbrev pub IsPassphrase : Derivations → Bytes → Entry → Bytes → Type 0
IsPassphrase os stack entry p =
    let derived = derivation_function os entry.kdf entry p stack in
    (derived.0 ≡ true)
    × ((entry.kdf ≡ kdf_none) ⊎ (take pass_size entry.hash ≡ take pass_size derived.1))

-- A code that belongs to a time at most the window of the entry away.
abbrev pub IsCurrent : Crypto → Config → ℕ → ℤ → Bytes → Type 0
IsCurrent c config size timestamp code =
    (o : ℤ) × Window size o × (generate_at c config (shifted config timestamp o) ≡ done (some code))

pub is_digest_iff :
    (entry : Entry) (digest : Bytes)
    → (is_digest entry digest ≡ true)
      ↔ ((entry.kdf ≡ kdf_none) ⊎ (take pass_size entry.hash ≡ take pass_size digest))
is_digest_iff entry digest = (forward entry.kdf, backward entry.kdf)
  where
    same :
        (str_eq (take pass_size entry.hash) (take pass_size digest) ≡ true)
        ↔ (take pass_size entry.hash ≡ take pass_size digest)
    same = str_eq_iff (take pass_size entry.hash) (take pass_size digest)

    forward :
        (kdf : Kdf)
        → (is_none kdf || str_eq (take pass_size entry.hash) (take pass_size digest)) ≡ true
        → (kdf ≡ kdf_none) ⊎ (take pass_size entry.hash ≡ take pass_size digest)
    forward kdf_none e = inl refl
    forward kdf_pbkdf2_sha256 e = inr (same.0 e)
    forward kdf_scrypt e = inr (same.0 e)

    backward :
        (kdf : Kdf)
        → (kdf ≡ kdf_none) ⊎ (take pass_size entry.hash ≡ take pass_size digest)
        → (is_none kdf || str_eq (take pass_size entry.hash) (take pass_size digest)) ≡ true
    backward kdf_none h = refl
    backward kdf_pbkdf2_sha256 (inl q) = cc
    backward kdf_pbkdf2_sha256 (inr q) = same.1 q
    backward kdf_scrypt (inl q) = cc
    backward kdf_scrypt (inr q) = same.1 q

pub split_code_append :
    (config : Config) (p code : Bytes)
    → length code ≡ config.digits
    → split_code (some config) (p ++ code) ≡ (length p, code)
split_code_append config p code e =
    let rest : length (p ++ code) - config.digits ≡ length p =
      omega (arith, length-append p code) in
    rw
      (
        enough config.digits (length (p ++ code)) (omega (arith, length-append p code)),
        rest,
        drop-append p code,
      )
      refl
  where
    enough : (n m : ℕ) → n ≤ m → leb n m ≡ true
    enough n m h = ground arith

-- The first bytes of a passphrase that is not too long for `unsigned int` are derived whole.
pub derive_append :
    (os : Derivations) (entry : Entry) (p rest stack : Bytes)
    → length p < 2 ^ 32
    → derive os entry (p ++ rest) (length p) stack ≡ derivation_function os entry.kdf entry p stack
unfolding derive
derive_append os entry p rest stack h =
    let whole : length p % 2 ^ 32 ≡ length p = omega arith in
    ap (λ n. derivation_function os entry.kdf entry (take n (p ++ rest)) stack) whole
    ∙ ap (λ s. derivation_function os entry.kdf entry s stack) (take-append p rest)

is_code_iff : (code : Bytes) (o : Option Bytes) → (is_code code o ≡ true) ↔ (o ≡ some code)
is_code_iff code none = (λ e. cc, λ e. cc)
is_code_iff code (some x) =
    (λ e. ap some (sym ((str_eq_iff code x).0 e)), λ e. (str_eq_iff code x).1 (sym (some_inj.0 e)))

pub done_injective : {A : Type 0} (a b : A) → done a ≡ done b → a ≡ b
done_injective {A = A} a b e = ap (value a) e
  where
    value : A → Outcome A → A
    value d (done x) = x
    value d undefined = d

-- A decision that ends, and what it decides.
abbrev pub Decides : Outcome Bool → Type 0 → Type 0
Decides outcome P = (b : Bool) × (outcome ≡ done b) × ((b ≡ true) ↔ P)

pub concluded :
    (d g found : Bool) (outcome : Outcome Bool)
    → outcome ≡ done found
    → Decides
        (if not d then done false else (outcome >>= (λ a. done (a && g))))
        ((d ≡ true) × (g ≡ true) × (found ≡ true))
concluded false g found outcome e = (false, refl, (λ q. cc, λ h. h.0))
concluded true g found outcome e =
    (found && g, rw e refl, (λ q. both found g q, λ h. rw (h.1, h.2) refl))
  where
    both : (found g : Bool) → (found && g) ≡ true → (true ≡ true) × (g ≡ true) × (found ≡ true)
    both true g q = (refl, q, refl)
    both false g q = cc

module _ (c : Crypto) (entry : Entry) (config : Config) (timestamp : ℤ)
    (enabled : entry.totp ≡ some config) (crypto : IsCrypto c) (ok : IsConfig config)
    (timely : IsTimely config entry.totp_window_size timestamp) where
  search-Finds :
      (provided : Bytes)
      → Finds
          (λ o. validate_config c provided timestamp o (some config))
          (Window entry.totp_window_size)
          (validate_window
            (λ o. validate_config c provided timestamp o (some config))
            entry.totp_window_size)
  search-Finds provided =
      validate_window-Finds (λ o. validate_config c provided timestamp o (some config))
        entry.totp_window_size timely.few
        (λ o inside. (
          is_code provided (expected c config timestamp o),
          validate_config_lem c config entry.totp_window_size timestamp crypto ok timely provided o
              inside,
        ))

  -- An offset succeeds where the code provided is that of its time.
  attempt_iff :
      (provided : Bytes) (o : ℤ)
      → Window entry.totp_window_size o
      → (validate_config c provided timestamp o (some config) ≡ done true)
        ↔ (generate_at c config (shifted config timestamp o) ≡ done (some provided))
  attempt_iff provided o inside =
      let compared =
        validate_config_lem c config entry.totp_window_size timestamp crypto ok timely provided o
          inside in
      let generated =
        generate_at_lem c config entry.totp_window_size timestamp crypto ok timely
          (shifted config timestamp o) in
      let code = expected c config timestamp o in
      (
        λ e.
            generated
            ∙ ap done (
                (is_code_iff provided code).0
                  (done_injective (is_code provided code) true (sym compared ∙ e))),
        λ e.
            compared
            ∙ ap done (
                (is_code_iff provided code).1
                  (done_injective code (some provided) (sym generated ∙ e))),
      )

  found_iff :
      (provided : Bytes)
      → ((search-Finds provided).found ≡ true)
        ↔ IsCurrent c config entry.totp_window_size timestamp provided
  found_iff provided = (
    λ e. current ((search-Finds provided).sound e),
    λ (o, inside, e).
        (search-Finds provided).complete o inside ((attempt_iff provided o inside).1 e),
  )
    where
      current :
          ((o : ℤ) × Window entry.totp_window_size o
            × (validate_config c provided timestamp o (some config) ≡ done true))
          → IsCurrent c config entry.totp_window_size timestamp provided
      current (o, inside, e) = (o, inside, (attempt_iff provided o inside).0 e)

  -- With a code enabled, both the digest and the code must be right.
  pub validate_derived_lem :
      (derived : Bool × Bytes) (provided : Bytes)
      → Decides (validate_derived c entry derived provided timestamp) (
          (derived.0 ≡ true)
          × (is_digest entry derived.1 ≡ true)
          × IsCurrent c config entry.totp_window_size timestamp provided)
  unfolding validate_derived
  validate_derived_lem derived provided =
      let found = search-Finds provided in
      let searched : validate_window (λ o. validate_config c provided timestamp o entry.totp)
            entry.totp_window_size
          ≡ done found.found =
        ap
          (λ t.
            validate_window (λ o. validate_config c provided timestamp o t) entry.totp_window_size)
          enabled
        ∙ found.ends in
      let (b, ends, iff) =
        concluded derived.0 (is_digest entry derived.1) found.found
          (validate_window (λ o. validate_config c provided timestamp o entry.totp)
            entry.totp_window_size)
          searched in
      (
        b,
        ends,
        (
          λ e. ((iff.0 e).0, (iff.0 e).1, (found_iff provided).0 (iff.0 e).2),
          λ h. iff.1 (h.0, h.1, (found_iff provided).1 h.2),
        ),
      )
