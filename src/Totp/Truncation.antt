-- ===== src/Totp/Truncation.antt =====
-- The parts of a code (rfc6238.c): the configuration, the bytes that are authenticated, and the dynamic
-- truncation of the digest.
use mathlib.Core.List.{reverse}
use mathlib.Core.Path.{subst}
use umsftpd.Prelude.{
  ℕ, zero, suc, ◌+◌, ◌-◌, ◌*◌, ◌/◌, ◌%◌, ◌^◌, ◌≤◌, ◌<◌, ◌≡◌, refl, sym, ap, ◌∙◌, Bool, true, false,
  [], ◌∷◌, Option, none, some, Bytes, All, All-reverse, length-reverse, length, get_or, leb, ltb,
  ◌||◌, bit_and, bit_or, if◌then◌else◌, if-cases, done, undefined, arith,
}
use umsftpd.Prelude.Bits.{bit_and_mask, bit_or_disjoint}
use umsftpd.Totp.{
  Digest, Config, new, raise_modulo, le_bytes, from_le, bswap_64, mac_data, truncate, Crypto,
}
use umsftpd.Totp.Decimal.{raise_modulo-pow}

abbrev pub IsByte : ℕ → Type 0
IsByte b = b < 256

-- What `rfc6238_new` ensures.
pub record IsConfig (config : Config) : Type 0 where
  pub some_digits : 1 ≤ config.digits
  pub few_digits : config.digits ≤ 8
  pub power : config.modulo ≡ 10 ^ config.digits

-- What OpenSSL documents: an authentication code has the size of its digest, which is that of SHA-1
-- or more.
pub record IsCrypto (c : Crypto) : Type 0 where
  pub wide : (md : Digest) → 20 ≤ c.md_size md
  pub sized :
      (md : Digest) (key message digest : Bytes)
      → c.hmac md key message ≡ some digest
      → (length digest ≡ c.md_size md) × All IsByte digest

-- `rfc6238_new` refuses other numbers of digits than 1 to 8, and otherwise keeps what it is given.
pub new-IsConfig :
    (secret : Bytes) (md : Digest) (slice digits : ℕ) (config : Config)
    → new true secret md slice digits ≡ some config
    → IsConfig config
      × (config.digits ≡ digits)
      × (config.md ≡ md)
      × (config.secret ≡ secret)
      × (config.slice_time_seconds ≡ slice)
unfolding new
new-IsConfig secret md slice digits config e =
    let made : Config = record {
      md = md;
      modulo = raise_modulo digits 1;
      digits = digits;
      slice_time_seconds = slice;
      secret = secret;
    } in
    if-cases
      (λ o.
        o ≡ some config
        → IsConfig config
          × (config.digits ≡ digits)
          × (config.md ≡ md)
          × (config.secret ≡ secret)
          × (config.slice_time_seconds ≡ slice))
      (ltb digits 1 || ltb 8 digits) {x = none} {y = some made} (λ _ q. cc)
      (λ few q.
        subst
          (λ c.
            IsConfig c
            × (c.digits ≡ digits)
            × (c.md ≡ md)
            × (c.secret ≡ secret)
            × (c.slice_time_seconds ≡ slice))
          (ap (from_some made) q)
          (
            record {
              some_digits = ground arith;
              few_digits = ground arith;
              power = raise_modulo-pow digits (ground arith);
            },
            refl,
            refl,
            refl,
            refl,
          ))
      e
  where
    from_some : Config → Option Config → Config
    from_some d none = d
    from_some d (some x) = x

le_bytes-from_le : (bs : Bytes) → All IsByte bs → le_bytes (length bs) (from_le bs) ≡ bs
unfolding le_bytes from_le
le_bytes-from_le [] h = refl
le_bytes-from_le (b ∷ bs) (h, hs) =
    let low : (b + 256 * from_le bs) % 256 ≡ b = omega arith in
    let high : (b + 256 * from_le bs) / 256 ≡ from_le bs = omega arith in
    ap (λ x. x ∷ le_bytes (length bs) ((b + 256 * from_le bs) / 256)) low
    ∙ ap (λ x. b ∷ le_bytes (length bs) x) high
    ∙ ap (λ x. b ∷ x) (le_bytes-from_le bs hs)

length-le_bytes : (w n : ℕ) → length (le_bytes w n) ≡ w
unfolding le_bytes
length-le_bytes zero n = refl
length-le_bytes (suc w) n = ap suc (length-le_bytes w (n / 256))

le_bytes-IsByte : (w n : ℕ) → All IsByte (le_bytes w n)
unfolding le_bytes
le_bytes-IsByte zero n = tt
le_bytes-IsByte (suc w) n = (omega arith, le_bytes-IsByte w (n / 256))

-- On a machine of either byte order, the time code is authenticated with its most significant byte
-- first.
pub mac_data_lem :
    (little_endian : Bool) (t : ℕ) → mac_data little_endian t ≡ reverse (le_bytes 8 t)
unfolding mac_data bswap_64
mac_data_lem true t =
    let image = reverse (le_bytes 8 t) in
    let eight : length image ≡ 8 = length-reverse (le_bytes 8 t) ∙ length-le_bytes 8 t in
    ap (λ w. le_bytes w (from_le image)) (sym eight)
    ∙ le_bytes-from_le image (All-reverse IsByte (le_bytes 8 t) (le_bytes-IsByte 8 t))
mac_data_lem false t = refl

-- The dynamic truncation of RFC 4226: four bytes at the offset that the last four bits give, as a
-- big-endian number of 31 bits.
unfoldable pub truncation : ℕ → Bytes → ℕ
truncation digest_len digest =
    let offset = get_or digest (digest_len - 1) 0 % 16 in
    let byte = λ (i : ℕ). get_or digest (offset + i) 0 in
    (byte 0 * 2 ^ 24 + byte 1 * 2 ^ 16 + byte 2 * 2 ^ 8 + byte 3) % 2 ^ 31

get_or-IsByte : (bs : Bytes) (i : ℕ) → All IsByte bs → IsByte (get_or bs i 0)
get_or-IsByte [] i h = omega arith
get_or-IsByte (b ∷ bs) zero h = h.0
get_or-IsByte (b ∷ bs) (suc i) h = get_or-IsByte bs i h.1

join_bytes :
    (a b c d : ℕ)
    → IsByte a
    → IsByte b
    → IsByte c
    → IsByte d
    → bit_and (bit_or (bit_or (bit_or (a * 2 ^ 24) (b * 2 ^ 16)) (c * 2 ^ 8)) d) 0x7fffffff
      ≡ (a * 2 ^ 24 + b * 2 ^ 16 + c * 2 ^ 8 + d) % 2 ^ 31
join_bytes a b c d ha hb hc hd =
    let two : bit_or (a * 2 ^ 24) (b * 2 ^ 16) ≡ (a * 2 ^ 8 + b) * 2 ^ 16 =
      bit_or_disjoint 24 a (b * 2 ^ 16) (omega arith) ∙ omega arith in
    let three : bit_or ((a * 2 ^ 8 + b) * 2 ^ 16) (c * 2 ^ 8)
        ≡ (a * 2 ^ 16 + b * 2 ^ 8 + c) * 2 ^ 8 =
      bit_or_disjoint 16 (a * 2 ^ 8 + b) (c * 2 ^ 8) (omega arith) ∙ omega arith in
    let four : bit_or ((a * 2 ^ 16 + b * 2 ^ 8 + c) * 2 ^ 8) d
        ≡ a * 2 ^ 24 + b * 2 ^ 16 + c * 2 ^ 8 + d =
      bit_or_disjoint 8 (a * 2 ^ 16 + b * 2 ^ 8 + c) d hd ∙ omega arith in
    ap (λ x. bit_and (bit_or (bit_or x (c * 2 ^ 8)) d) 0x7fffffff) two
    ∙ ap (λ x. bit_and (bit_or x d) 0x7fffffff) three
    ∙ ap (λ x. bit_and x 0x7fffffff) four
    ∙ bit_and_mask 31 (a * 2 ^ 24 + b * 2 ^ 16 + c * 2 ^ 8 + d)

pub truncate_lem :
    (digest_len : ℕ) (digest : Bytes)
    → 20 ≤ digest_len
    → All IsByte digest
    → truncate digest_len digest ≡ done (truncation digest_len digest)
unfolding truncate truncation
truncate_lem digest_len digest w h =
    let last = get_or digest (digest_len - 1) 0 in
    let at = λ (offset i : ℕ). get_or digest (offset + i) 0 in
    let joined = λ (o : ℕ).
      bit_and
        (bit_or (bit_or (bit_or (at o 0 * 2 ^ 24) (at o 1 * 2 ^ 16)) (at o 2 * 2 ^ 8)) (at o 3))
        0x7fffffff in
    ap (λ o. if leb digest_len (o + 3) then undefined else done (joined o)) (bit_and_mask 4 last)
    ∙ inside (leb digest_len (last % 16 + 3)) (joined (last % 16))
        (fits digest_len (last % 16) w (omega arith))
    ∙ ap done (
        join_bytes (at (last % 16) 0) (at (last % 16) 1) (at (last % 16) 2) (at (last % 16) 3)
          (get_or-IsByte digest (last % 16 + 0) h) (get_or-IsByte digest (last % 16 + 1) h)
          (get_or-IsByte digest (last % 16 + 2) h) (get_or-IsByte digest (last % 16 + 3) h))
  where
    fits : (n o : ℕ) → 20 ≤ n → o < 16 → leb n (o + 3) ≡ false
    fits n o p q = ground arith

    inside : (b : Bool) (v : ℕ) → b ≡ false → (if b then undefined else done v) ≡ done v
    inside b v e = rw e refl
