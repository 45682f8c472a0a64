-- ===== src/Passdb.antt =====
-- passdb.h and passdb.c: passphrases and the one-time codes behind them. The key derivations of OpenSSL
-- and `getrandom` are parameters; memory that is not initialised is an argument.
pub mod Window
pub mod Dump
pub mod Laws
pub mod Accept
pub mod Validate
pub mod Entries
mod Tests
use umsftpd.Prelude.{
  ℕ, zero, suc, ◌+◌, ◌-◌, ◌*◌, ◌/◌, ◌%◌, ◌^◌, Bool, true, false, not, ◌&&◌, ◌||◌, List, [], ◌∷◌,
  ◌++◌, Option, none, some, Bytes, length, take, drop, ltb, leb, ◌==◌, str_eq, if◌then◌else◌,
  Outcome, done, undefined, ◌>>=◌,
}
use umsftpd.Prelude.Int.{ℤ, pos, negsuc, ◌+ℤ◌, ◌*ℤ◌, negate}
use umsftpd.Totp.{Config, Crypto, generate_at}

-- `enum passdb_kdf_t`
pub data Kdf : Type 0 where
  kdf_none kdf_pbkdf2_sha256 kdf_scrypt : Kdf

-- `union passdb_kdf_params_t` as the words of its larger member, `struct passdb_kdf_params_scrypt_t`.
pub record KdfParams : Type 0 where
  pub n : ℕ
  pub r : ℕ
  pub p : ℕ
  pub maxmem_mib : ℕ

-- The only word of the other member, `struct passdb_kdf_params_pbkdf2_t`.
abbrev pub iterations : KdfParams → ℕ
iterations params = params.n

-- `struct passdb_entry_t`
pub record Entry : Type 0 where
  pub kdf : Kdf
  pub params : KdfParams
  pub salt : Bytes
  pub hash : Bytes
  pub totp : Option Config
  pub totp_window_size : ℕ

abbrev pub salt_size : ℕ
salt_size = 16

abbrev pub pass_size : ℕ
pass_size = 32

abbrev no_params : KdfParams
no_params = record { n = 0; r = 0; p = 0; maxmem_mib = 0 }

abbrev pub default_params : Kdf → KdfParams
default_params kdf_none = no_params
default_params kdf_pbkdf2_sha256 = record { n = 140845; r = 0; p = 0; maxmem_mib = 0 }
default_params kdf_scrypt = record { n = 32768; r = 8; p = 1; maxmem_mib = 33 }

-- The calls on OpenSSL: `PKCS5_PBKDF2_HMAC` and those on an `EVP_PKEY_CTX`. A derivation gives whether
-- it succeeds and what the buffer then holds; every other call on a context may fail.
pub record Derivations : Type 1 where
  pub pbkdf2 : Bytes → Bytes → ℕ → ℕ → Bool × Bytes
  pub Context : Type 0
  pub ctx_new : Option Context
  pub derive_init : Context → Option Context
  pub set_pass : Bytes → Context → Option Context
  pub set_salt : Bytes → Context → Option Context
  pub set_n : ℕ → Context → Option Context
  pub set_r : ℕ → Context → Option Context
  pub set_p : ℕ → Context → Option Context
  pub set_maxmem_bytes : ℕ → Context → Option Context
  pub derive_key : Context → ℕ → Bool × Bytes

infixl 5 ◌and_then◌
abbrev ◌and_then◌ : {A B : Type 0} → Option A → (A → Option B) → Option B
none and_then f = none
(some a) and_then f = f a

-- A derivation function: whether it succeeds, and its buffer afterwards.
abbrev pub Derivation : Type 0
Derivation = Entry → Bytes → Bytes → Bool × Bytes

abbrev pub derive_none : Derivation
derive_none entry passphrase digest = (true, digest)

abbrev pub derive_pbkdf2_sha256 : Derivations → Derivation
derive_pbkdf2_sha256 os entry passphrase digest =
    os.pbkdf2 passphrase entry.salt (iterations entry.params) pass_size

-- The context after all calls before the derivation; the memory limit is multiplied in `unsigned int`.
abbrev pub scrypt_context : (os : Derivations) → Entry → Bytes → Option os.Context
scrypt_context os entry passphrase =
    os.ctx_new
    and_then os.derive_init
    and_then os.set_pass passphrase
    and_then os.set_salt entry.salt
    and_then os.set_n entry.params.n
    and_then os.set_r entry.params.r
    and_then os.set_p entry.params.p
    and_then os.set_maxmem_bytes (entry.params.maxmem_mib * 1024 * 1024 % 2 ^ 32)

abbrev pub derive_in : (os : Derivations) → Option os.Context → Bytes → Bool × Bytes
derive_in os none digest = (false, digest)
derive_in os (some context) digest = os.derive_key context pass_size

abbrev pub derive_scrypt : Derivations → Derivation
derive_scrypt os entry passphrase digest = derive_in os (scrypt_context os entry passphrase) digest

abbrev pub derivation_function : Derivations → Kdf → Derivation
derivation_function os kdf_none = derive_none
derivation_function os kdf_pbkdf2_sha256 = derive_pbkdf2_sha256 os
derivation_function os kdf_scrypt = derive_scrypt os

-- `passdb_derive`, on the first `passphrase_length` bytes; that number is passed as an `unsigned int`.
unfoldable pub derive : Derivations → Entry → Bytes → ℕ → Bytes → Bool × Bytes
derive os entry passphrase passphrase_length digest =
    derivation_function os entry.kdf entry (take (passphrase_length % 2 ^ 32) passphrase) digest

abbrev pub chosen_params : Kdf → Option KdfParams → KdfParams
chosen_params kdf (some params) = params
chosen_params kdf none = default_params kdf

-- `passdb_create_entry`; `random` are the bytes that `getrandom` writes, and an error writes none.
unfoldable pub create_entry :
    Derivations → Bytes → Entry → Kdf → Option KdfParams → Bytes → Bool × Entry
create_entry os random entry kdf params passphrase =
    let salted : Entry = record entry {
      kdf = kdf;
      params = chosen_params kdf params;
      salt = take salt_size random ++ drop (length random) entry.salt;
    } in
    let derived = derive os salted passphrase (length passphrase) salted.hash in
    if not (length random == salt_size)
    then (false, salted)
    else (derived.0, record salted { hash = derived.1 })

-- `passdb_attach_totp`; the number of seconds is rounded up to slices in `unsigned int`.
unfoldable pub attach_totp : Entry → Config → ℕ → Outcome Entry
attach_totp entry totp window_size_seconds =
    if totp.slice_time_seconds == 0
    then undefined
    else done (record entry {
      totp = some totp;
      totp_window_size =
          (window_size_seconds + totp.slice_time_seconds + (2 ^ 32 - 1))
          % 2 ^ 32
          / totp.slice_time_seconds;
    })

-- Whether a number is one of `int` (31) or of `time_t` (63), whose overflow is undefined.
abbrev pub fits_signed : ℕ → ℤ → Bool
fits_signed bits (pos n) = ltb n (2 ^ bits)
fits_signed bits (negsuc n) = ltb n (2 ^ bits)

-- `(int)n` of an `unsigned int`.
abbrev pub to_int : ℕ → ℤ
to_int n = if ltb n (2 ^ 31) then pos n else negsuc (2 ^ 32 - n - 1)

abbrev pub timestamp_at : ℤ → ℤ → Outcome ℤ
timestamp_at timestamp shift =
    if not (fits_signed 31 shift) || not (fits_signed 63 (timestamp +ℤ shift))
    then undefined
    else done (timestamp +ℤ shift)

abbrev pub is_code : Bytes → Option Bytes → Bool
is_code totp_provided none = false
is_code totp_provided (some totp_expected) = str_eq totp_provided totp_expected

unfoldable pub validate_config : Crypto → Bytes → ℤ → ℤ → Option Config → Outcome Bool
validate_config c totp_provided timestamp offset none = done true
validate_config c totp_provided timestamp offset (some totp) = do
  effective_timestamp ← timestamp_at timestamp (offset *ℤ to_int totp.slice_time_seconds)
  totp_expected ← generate_at c totp effective_timestamp
  done (is_code totp_provided totp_expected)

-- `passdb_validate_totp`
abbrev pub validate_totp : Crypto → Entry → Bytes → ℤ → ℤ → Outcome Bool
validate_totp c entry totp_provided timestamp offset =
    validate_config c totp_provided timestamp offset entry.totp

-- One turn of the loop over the offsets, with what the turns after it give; `int` must not overflow.
abbrev pub try_offset : (ℤ → Outcome Bool) → ℕ → Outcome Bool → Outcome Bool
try_offset attempt offset rest = do
  earlier ← attempt (negate (pos offset))
  (if earlier then done true else (do
    later ← attempt (pos offset)
    (if later then done true else if offset == 2 ^ 31 - 1 then undefined else rest)))

-- The loop from an offset on, by the turns left.
unfoldable pub try_offsets : (ℤ → Outcome Bool) → ℕ → ℕ → Outcome Bool
try_offsets attempt zero offset = done false
try_offsets attempt (suc rounds) offset =
    let rest = try_offsets attempt rounds (offset + 1) in try_offset attempt offset rest

-- The passphrase's length without the code, and the code.
abbrev pub split_code : Option Config → Bytes → ℕ × Bytes
split_code none passphrase = (length passphrase, [])
split_code (some totp) passphrase =
    if leb totp.digits (length passphrase)
    then (length passphrase - totp.digits, drop (length passphrase - totp.digits) passphrase)
    else (length passphrase, [])

abbrev pub is_none : Kdf → Bool
is_none kdf_none = true
is_none kdf_pbkdf2_sha256 = false
is_none kdf_scrypt = false

-- Whether any offset in the window has the code.
unfoldable pub validate_window : (ℤ → Outcome Bool) → ℕ → Outcome Bool
validate_window attempt totp_window_size = do
  now ← attempt (pos 0)
  (if now then done true else try_offsets attempt totp_window_size 1)

-- Whether the digest is that of the entry, all its bytes compared (`memcmp`).
abbrev pub is_digest : Entry → Bytes → Bool
is_digest entry digest =
    is_none entry.kdf || str_eq (take pass_size entry.hash) (take pass_size digest)

-- `passdb_validate_around` behind the derivation.
unfoldable pub validate_derived : Crypto → Entry → Bool × Bytes → Bytes → ℤ → Outcome Bool
validate_derived c entry derived totp_provided timestamp =
    let digest_correct = is_digest entry derived.1 in
    if not derived.0 then done false else (do
      accepted ←
          validate_window (validate_totp c entry totp_provided timestamp) entry.totp_window_size
      done (accepted && digest_correct))

-- `passdb_validate_around`; `stack` is what the digest's buffer holds at first.
unfoldable pub validate_around : Derivations → Crypto → Bytes → Entry → Bytes → ℤ → Outcome Bool
validate_around os c stack entry passphrase timestamp =
    let given = split_code entry.totp passphrase in
    validate_derived c entry (derive os entry passphrase given.0 stack) given.1 timestamp

-- `passdb_validate`, with what `time` gives.
unfoldable pub validate : Derivations → Crypto → Bytes → Entry → Bytes → ℤ → Outcome Bool
validate os c stack entry passphrase now = validate_around os c stack entry passphrase now
