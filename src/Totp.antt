-- ===== src/Totp.antt =====
-- rfc6238.h and rfc6238.c: one-time codes. `HMAC` and `EVP_MD_size` of OpenSSL are parameters; the secret
-- is the list of its `secret_length` bytes.
pub mod Decimal
pub mod Truncation
pub mod Laws
mod Tests
pub mod Vectors
use umsftpd.Prelude.{
  ℕ, zero, suc, ◌+◌, ◌-◌, ◌*◌, ◌/◌, ◌%◌, ◌^◌, Bool, true, false, not, ◌||◌, List, [], ◌∷◌, ◌++◌,
  Option, none, some, Bytes, length, take, get_or, ltb, leb, bit_and, bit_or, if◌then◌else◌,
  Outcome, done, undefined, ◌==◌,
}
use mathlib.Core.List.{reverse}
use umsftpd.Prelude.Int.{ℤ, pos, negsuc}
use umsftpd.Prelude.Printf.{padded}

-- `enum rfc6238_digest_t`, which also stands for the `EVP_MD` that belongs to it.
pub data Digest : Type 0 where
  sha1 sha256 sha384 sha512 : Digest

-- `struct rfc6238_config_t`. Its field `digest` is not set and never read.
pub record Config : Type 0 where
  pub md : Digest
  pub modulo : ℕ
  pub digits : ℕ
  pub slice_time_seconds : ℕ
  pub secret : Bytes

-- The loop `config->modulo *= 10` on `uint32_t`, by the rounds left.
unfoldable pub raise_modulo : ℕ → ℕ → ℕ
raise_modulo zero modulo = modulo
raise_modulo (suc rounds) modulo = raise_modulo rounds (modulo * 10 % 2 ^ 32)

-- `rfc6238_new`; the flag says whether `malloc` succeeds.
unfoldable pub new : Bool → Bytes → Digest → ℕ → ℕ → Option Config
unfolding raise_modulo
new malloc_ok secret digest slice_time_seconds digits =
    if ltb digits 1 || ltb 8 digits
    then none
    else if not malloc_ok
    then none
    else some (record {
      md = digest;
      modulo = raise_modulo digits 1;
      digits = digits;
      slice_time_seconds = slice_time_seconds;
      secret = secret;
    })

-- `rfc6238_present`: `snprintf` into nine bytes keeps eight.
unfoldable pub present : Config → ℕ → Bytes
unfolding padded
present config value = take 8 (padded config.digits (value % config.modulo))

-- The bytes of an unsigned integer in memory, and the integer, on a little-endian machine.
unfoldable pub le_bytes : ℕ → ℕ → Bytes
le_bytes zero n = []
le_bytes (suc w) n = n % 256 ∷ le_bytes w (n / 256)

unfoldable pub from_le : Bytes → ℕ
from_le [] = 0
from_le (b ∷ bs) = b + 256 * from_le bs

-- `bswap_64`
unfoldable pub bswap_64 : ℕ → ℕ
bswap_64 n = from_le (reverse (le_bytes 8 n))

-- The eight bytes of the time code that are authenticated, on a machine of either byte order.
unfoldable pub mac_data : Bool → ℕ → Bytes
mac_data little_endian timecode =
    if little_endian then le_bytes 8 (bswap_64 timecode) else reverse (le_bytes 8 timecode)

-- The dynamic truncation of `rfc6238_generate`; `digest[i]` behind the digest is undefined.
unfoldable pub truncate : ℕ → Bytes → Outcome ℕ
truncate digest_len digest =
    let offset = bit_and (get_or digest (digest_len - 1) 0) 0xf in
    let byte = λ (i : ℕ). get_or digest (offset + i) 0 in
    if leb digest_len (offset + 3)
    then undefined
    else done (
        bit_and
          (bit_or (bit_or (bit_or (byte 0 * 2 ^ 24) (byte 1 * 2 ^ 16)) (byte 2 * 2 ^ 8)) (byte 3))
          0x7fffffff)

abbrev pub map_done : {A B : Type 0} → (A → B) → Outcome A → Outcome B
map_done f (done a) = done (f a)
map_done f undefined = undefined

-- What the program calls on: the byte order, `EVP_MD_size` and `HMAC`, which may fail.
pub record Crypto : Type 0 where
  pub little_endian : Bool
  pub md_size : Digest → ℕ
  pub hmac : Digest → Bytes → Bytes → Option Bytes

abbrev pub present_digest : Config → ℕ → Option Bytes → Outcome (Option Bytes)
present_digest config digest_len none = done none
present_digest config digest_len (some digest) =
    map_done (λ value. some (present config value)) (truncate digest_len digest)

-- `rfc6238_generate`; `none` is the result false.
unfoldable pub generate : Crypto → Config → ℕ → Outcome (Option Bytes)
generate c config timecode =
    present_digest config (c.md_size config.md)
      (c.hmac config.md config.secret (mac_data c.little_endian timecode))

-- `t / slice_time_seconds` in `time_t`, rounded towards 0, as a `uint64_t`.
abbrev pub time_slice : ℤ → ℕ → ℕ
time_slice (pos t) slice = t / slice % 2 ^ 64
time_slice (negsuc n) slice = (2 ^ 64 - (n + 1) / slice) % 2 ^ 64

-- `rfc6238_generate_at`; a division by 0 is undefined.
unfoldable pub generate_at : Crypto → Config → ℤ → Outcome (Option Bytes)
generate_at c config t =
    if config.slice_time_seconds == 0
    then undefined
    else generate c config (time_slice t config.slice_time_seconds)

-- `rfc6238_generate_now`, with what `time` gives. It takes the time for the time code.
unfoldable pub generate_now : Crypto → Config → ℤ → Outcome (Option Bytes)
generate_now c config now = generate c config (time_slice now 1)
