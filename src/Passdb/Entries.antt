-- ===== src/Passdb/Entries.antt =====
-- Entries that `passdb_create_entry` and `passdb_attach_totp` of passdb.c make, and those without codes.
use native.Mathlib.Nat.{div-add-mod, mod-lt}
use umsftpd.Prelude.{
  ℕ, ◌+◌, ◌-◌, ◌*◌, ◌/◌, ◌%◌, ◌^◌, ◌≤◌, ◌<◌, ◌≡◌, refl, sym, ap, ◌∙◌, true, false, not, ◌&&◌, [],
  ◌++◌, append-nil, Option, none, some, Bytes, length, take, drop, ◌==◌, ◌⊎◌, inl, inr, done,
  undefined, ◌>>=◌, if◌then◌else◌, arith, if-cases,
}
use mathlib.Core.Path.{subst}
use umsftpd.Prelude.Int.{ℤ, pos}
use umsftpd.Totp.{Config, Crypto}
use umsftpd.Totp.Truncation.{IsConfig, IsCrypto}
use umsftpd.Passdb.{
  Kdf, kdf_none, kdf_pbkdf2_sha256, kdf_scrypt, KdfParams, Entry, Derivations, derivation_function,
  derive, derive_in, scrypt_context, is_digest, split_code, pass_size, validate_derived,
  validate_window, validate_config, try_offsets, validate_around, create_entry, chosen_params,
  salt_size, attach_totp,
}
use umsftpd.Passdb.Laws.{IsTimely}
use umsftpd.Passdb.Accept.{
  IsPassphrase, IsCurrent, Decides, concluded, is_digest_iff, derive_append,
}
use umsftpd.Passdb.Validate.{validate_around_lem}

derive_whole :
    (os : Derivations) (entry : Entry) (p stack : Bytes)
    → length p < 2 ^ 32
    → derive os entry p (length p) stack ≡ derivation_function os entry.kdf entry p stack
derive_whole os entry p stack h =
    ap (λ s. derive os entry s (length p) stack) (sym (append-nil p))
    ∙ derive_append os entry p [] stack h

-- What a derivation gives does not depend on its buffer, but for the entry without a passphrase.
rederive :
    (os : Derivations) (kdf : Kdf) (entry : Entry) (p buffer stack : Bytes)
    → (derivation_function os kdf entry p buffer).0 ≡ true
    → ((derivation_function os kdf entry p stack).0 ≡ true)
      × ((kdf ≡ kdf_none)
          ⊎ (take pass_size (derivation_function os kdf entry p buffer).1
              ≡ take pass_size (derivation_function os kdf entry p stack).1))
rederive os kdf_none entry p buffer stack h = (refl, inl refl)
rederive os kdf_pbkdf2_sha256 entry p buffer stack h = (h, inr refl)
rederive os kdf_scrypt entry p buffer stack h = in_context (scrypt_context os entry p) h
  where
    in_context :
        (context : Option os.Context)
        → (derive_in os context buffer).0 ≡ true
        → ((derive_in os context stack).0 ≡ true)
          × ((kdf_scrypt ≡ kdf_none)
              ⊎ (take pass_size (derive_in os context buffer).1
                  ≡ take pass_size (derive_in os context stack).1))
    in_context none e = cc
    in_context (some context) e = (e, inr refl)

-- The derivation reads the parameters and the salt of an entry only.
derivation_function-record :
    (os : Derivations) (kdf : Kdf) (entry : Entry) (p stack hash : Bytes) (totp : Option Config)
    (size : ℕ)
    → derivation_function os kdf
        (record entry { hash = hash; totp = totp; totp_window_size = size })
        p
        stack
      ≡ derivation_function os kdf entry p stack
derivation_function-record os kdf_none entry p stack hash totp size = refl
derivation_function-record os kdf_pbkdf2_sha256 entry p stack hash totp size = refl
derivation_function-record os kdf_scrypt entry p stack hash totp size = refl

-- The entry that was made of a passphrase has that passphrase.
create_entry-IsPassphrase :
    (os : Derivations) (random : Bytes) (entry : Entry) (kdf : Kdf) (params : Option KdfParams)
    (p : Bytes) (created : Entry) (stack : Bytes)
    → create_entry os random entry kdf params p ≡ (true, created)
    → length p < 2 ^ 32
    → IsPassphrase os stack created p
      × (created.totp ≡ entry.totp)
      × (created.totp_window_size ≡ entry.totp_window_size)
unfolding create_entry
create_entry-IsPassphrase os random entry kdf params p created stack e h =
    let salted : Entry = record entry {
      kdf = kdf;
      params = chosen_params kdf params;
      salt = take salt_size random ++ drop (length random) entry.salt;
    } in
    let derived = derive os salted p (length p) salted.hash in
    let Goal = λ (x : Entry).
      IsPassphrase os stack x p
      × (x.totp ≡ entry.totp)
      × (x.totp_window_size ≡ entry.totp_window_size) in
    let whole = derive_whole os salted p salted.hash h in
    if-cases (λ o. o ≡ (true, created) → Goal created) (not (length random == salt_size))
      {x = (false, salted)} {y = (derived.0, record salted { hash = derived.1 })} (λ _ q. cc)
      (λ _ q.
        let again =
          rederive os kdf salted p salted.hash stack
            (sym (ap (λ d. d.0) whole) ∙ ap (λ o. o.0) q) in
        let hashed =
          derivation_function-record os kdf salted p stack derived.1 entry.totp
            entry.totp_window_size in
        subst Goal (ap (λ o. o.1) q) (
          (
            ap (λ d. d.0) hashed ∙ again.0,
            elim again.1 [
              | inl unprotected ↦ inl unprotected
              | inr same ↦ inr (
                  ap (λ d. take pass_size d.1) whole
                  ∙ same
                  ∙ ap (λ d. take pass_size d.1) (sym hashed))
            ],
          ),
          refl,
          refl,
        ))
      e

-- An entry with one-time codes attached still has its passphrase, and has these codes.
attach_totp-IsPassphrase :
    (os : Derivations) (stack p : Bytes) (entry : Entry) (config : Config) (seconds : ℕ)
    (attached : Entry)
    → attach_totp entry config seconds ≡ done attached
    → IsPassphrase os stack entry p
    → IsPassphrase os stack attached p × (attached.totp ≡ some config)
unfolding attach_totp
attach_totp-IsPassphrase os stack p entry config seconds attached e h =
    let size =
      (seconds + config.slice_time_seconds + (2 ^ 32 - 1)) % 2 ^ 32 / config.slice_time_seconds in
    let made : Entry = record entry { totp = some config; totp_window_size = size } in
    let Goal = λ (x : Entry). IsPassphrase os stack x p × (x.totp ≡ some config) in
    let again =
      sym (derivation_function-record os entry.kdf entry p stack entry.hash (some config) size) in
    let kept : Goal made = (
      subst
          (λ d.
            (d.0 ≡ true)
            × ((entry.kdf ≡ kdf_none) ⊎ (take pass_size entry.hash ≡ take pass_size d.1)))
          again h,
      refl,
    ) in
    if-cases (λ o. o ≡ done attached → Goal attached) (config.slice_time_seconds == 0)
      {x = undefined} {y = done made} (λ _ q. cc)
      (λ _ q. subst Goal (same_entry made attached q) kept) e
  where
    same_entry : (a b : Entry) → done a ≡ done b → a ≡ b
    same_entry a b q = cc

-- Making an entry, attaching codes and validating against it. An entry that was made of a passphrase, and
-- to which `passdb_attach_totp` has then attached one-time codes, accepts the passphrase with a code behind
-- it exactly when that code is a current one; the content of the digest's buffer does not matter. The
-- passphrase is shorter than 4 GiB, slices, window and clock are within the bounds of `int` and `time_t`,
-- and the configuration and `HMAC` are as documented.
pub create_entry-validate_around :
    (os : Derivations) (random : Bytes) (entry : Entry) (kdf : Kdf) (params : Option KdfParams)
    (p : Bytes) (created : Entry) (seconds : ℕ) (attached : Entry) (c : Crypto) (stack : Bytes)
    (config : Config) (timestamp : ℤ) (code : Bytes)
    → create_entry os random entry kdf params p ≡ (true, created)
    → length p < 2 ^ 32
    → attach_totp created config seconds ≡ done attached
    → IsCrypto c
    → IsConfig config
    → IsTimely config attached.totp_window_size timestamp
    → length code ≡ config.digits
    → Decides
        (validate_around os c stack attached (p ++ code) timestamp)
        (IsCurrent c config attached.totp_window_size timestamp code)
create_entry-validate_around os random entry kdf params p created seconds attached c stack config
      timestamp code e h a crypto ok timely n =
    let fits = create_entry-IsPassphrase os random entry kdf params p created stack e h in
    let (same, enabled) =
      attach_totp-IsPassphrase os stack p created config seconds attached a fits.0 in
    let (b, ends, iff) =
      validate_around_lem os c stack attached config timestamp enabled crypto ok timely p code n
        h in
    (b, ends, (λ q. (iff.0 q).1, λ r. iff.1 (same, r)))

-- An entry without one-time codes accepts a text shorter than 4 GiB exactly when it is the passphrase.
pub validate_around-plain :
    (os : Derivations) (c : Crypto) (stack : Bytes) (entry : Entry) (timestamp : ℤ) (p : Bytes)
    → entry.totp ≡ none
    → length p < 2 ^ 32
    → Decides (validate_around os c stack entry p timestamp) (IsPassphrase os stack entry p)
unfolding validate_around validate_derived validate_window validate_config
validate_around-plain os c stack entry timestamp p disabled h =
    let derived = derivation_function os entry.kdf entry p stack in
    let digest = is_digest_iff entry derived.1 in
    let (b, ends, iff) = concluded derived.0 (is_digest entry derived.1) true (done true) refl in
    let plain = λ (t : Option Config).
      (let given = split_code t p in
        let d = derive os entry p given.0 stack in
        if not d.0 then done false else (do
          accepted ← (do
            now ← validate_config c given.1 timestamp (pos 0) t
            (if now
                then done true
                else try_offsets (λ o. validate_config c given.1 timestamp o t)
                    entry.totp_window_size 1))
          done (accepted && is_digest entry d.1))) in
    (
      b,
      ap plain disabled
          ∙ ap (λ d. if not d.0 then done false else done (true && is_digest entry d.1))
              (derive_whole os entry p stack h)
          ∙ ends,
      (λ q. ((iff.0 q).0, digest.0 (iff.0 q).1), λ r. iff.1 (r.0, digest.1 r.1, refl)),
    )

round_up :
    (n s : ℕ)
    → 1 ≤ s
    → n + s ≤ 2 ^ 32
    → (n ≤ (n + s + (2 ^ 32 - 1)) % 2 ^ 32 / s * s)
      × ((n + s + (2 ^ 32 - 1)) % 2 ^ 32 / s * s < n + s)
round_up n s h fits =
    let unwrapped : (n + s + (2 ^ 32 - 1)) % 2 ^ 32 ≡ n + s - 1 = omega arith in
    let whole = div-add-mod (n + s - 1) s in
    let part = mod-lt (n + s - 1) h in rw unwrapped (omega arith, omega arith)

-- Attaching one-time codes with a window in seconds gives the window the least number of slices that
-- covers it, and leaves the passphrase alone; the window and a slice together are at most 2 ^ 32 seconds.
pub attach_totp_lem :
    (entry : Entry) (config : Config) (seconds : ℕ)
    → 1 ≤ config.slice_time_seconds
    → seconds + config.slice_time_seconds ≤ 2 ^ 32
    → (attached : Entry) × (attach_totp entry config seconds ≡ done attached)
      × (attached.totp ≡ some config)
      × (seconds ≤ attached.totp_window_size * config.slice_time_seconds)
      × (attached.totp_window_size * config.slice_time_seconds
          < seconds + config.slice_time_seconds)
      × ((os : Derivations) (stack p : Bytes)
          → IsPassphrase os stack entry p
          → IsPassphrase os stack attached p)
unfolding attach_totp
attach_totp_lem entry config seconds h fits =
    let size =
      (seconds + config.slice_time_seconds + (2 ^ 32 - 1)) % 2 ^ 32 / config.slice_time_seconds in
    let attached : Entry = record entry { totp = some config; totp_window_size = size } in
    (
      attached,
      some_slices config.slice_time_seconds attached h,
      refl,
      (round_up seconds config.slice_time_seconds h fits).0,
      (round_up seconds config.slice_time_seconds h fits).1,
      λ os stack p same.
          let again =
            sym (
              derivation_function-record os entry.kdf entry p stack entry.hash (some config)
                size) in
          subst
            (λ d.
              (d.0 ≡ true)
              × ((entry.kdf ≡ kdf_none) ⊎ (take pass_size entry.hash ≡ take pass_size d.1)))
            again same,
    )
  where
    some_slices : (n : ℕ) (e : Entry) → 1 ≤ n → (if n == 0 then undefined else done e) ≡ done e
    some_slices n e h = ground arith
