-- ===== src/Base32.antt =====
-- rfc4648.c: decoding base32 in groups of eight characters. A decoder gives the bytes that it has written,
-- in their order from the start of the buffer, and its result.
pub mod Accepted
pub mod Laws
pub mod Encode
pub mod Signs
pub mod Joins
pub mod Groups
pub mod RoundTrip
mod Tests
use umsftpd.Prelude.{
  ℕ, zero, suc, ◌+◌, ◌-◌, ◌*◌, ◌/◌, ◌%◌, ◌≤◌, ◌≡◌, refl, Bool, true, false, ◌&&◌, ◌||◌, List, [],
  ◌∷◌, ◌++◌, Option, none, some, Bytes, length, length-append, take, drop, get_or, char_at, leb,
  ltb, ◌==◌, bit_or, if◌then◌else◌, if-cases, codes, arith,
}

-- `rfc4648_padding_char`, the sign "=".
abbrev pub padding_char : ℕ
padding_char = 61

-- The loop of `rfc4648_base32_size`, on the length.
unfoldable pub unpadded : Bytes → ℕ → ℕ
unpadded s zero = zero
unpadded s (suc len) = elim (char_at s len == padding_char) [
  | true ↦ unpadded s len
  | false ↦ suc len
]

-- `rfc4648_base32_size`
unfoldable pub base32_size : Bytes → ℕ
base32_size s = unpadded s (length s)

-- `strchr(alphabet, c) - alphabet`
unfoldable pub index_of : Bytes → ℕ → Option ℕ
index_of [] c = none
index_of (a ∷ alphabet) c =
    let rest = index_of alphabet c in
    if a == c then some 0 else elim rest [ none ↦ none | some i ↦ some (i + 1) ]

abbrev pub nones : ℕ → List (Option ℕ)
nones zero = []
nones (suc n) = none ∷ nones n

abbrev pub with_char : Option ℕ → Option (List (Option ℕ)) → Option (List (Option ℕ))
with_char none rest = none
with_char (some k) none = none
with_char (some k) (some ks) = some (some k ∷ ks)

-- `mapped_chars`, where `none` is -1; no list for a character outside the alphabet.
unfoldable pub map_chars : ℕ → Bytes → Bytes → Option (List (Option ℕ))
map_chars zero alphabet s = some []
map_chars (suc n) alphabet s =
    let rest = map_chars n alphabet (drop 1 s) in
    if (char_at s 0 == 0) || (char_at s 0 == padding_char)
    then some (nones (suc n))
    else with_char (index_of alphabet (char_at s 0)) rest

-- `(a << i) | (b >> j)` as a byte, for `p = 2 ^ i` and `q = 2 ^ j`.
abbrev pub two : Option ℕ → ℕ → Option ℕ → ℕ → Option ℕ
two (some a) p (some b) q = some (bit_or (a * p) (b / q) % 256)
two (some a) p none q = none
two none p b q = none

-- `(a << i) | (b << j) | (c >> k)` as a byte.
abbrev pub three : Option ℕ → ℕ → Option ℕ → ℕ → Option ℕ → ℕ → Option ℕ
three (some a) p (some b) q (some c) r = some (bit_or (bit_or (a * p) (b * q)) (c / r) % 256)
three (some a) p (some b) q none r = none
three (some a) p none q c r = none
three none p b q c r = none

-- The values of `next` in a group; `none` ends the text.
abbrev pub next_bytes : List (Option ℕ) → List (Option ℕ)
next_bytes m =
    let at = λ (i : ℕ). get_or m i none in
    two (at 0) 8 (at 1) 4
    ∷ three (at 1) 64 (at 2) 2 (at 3) 16
    ∷ two (at 3) 16 (at 4) 2
    ∷ three (at 4) 128 (at 5) 4 (at 6) 8
    ∷ two (at 6) 32 (at 7) 1
    ∷ []

-- The loop over the five bytes: what stands in the buffer then, and whether the text is finished, or
-- `none` for the result false.
unfoldable pub emit : ℕ → List (Option ℕ) → Bytes → Bytes × Option Bool
emit bufsize [] out = (out, some false)
emit bufsize (none ∷ bytes) out = (out, some true)
emit bufsize (some b ∷ bytes) out =
    let rest = emit bufsize bytes (out ++ b ∷ []) in
    if leb bufsize (length out) then (out, none) else rest

-- One turn of the loop of `rfc4648_decode_base32_multi`.
unfoldable pub decode_group : ℕ → Bytes → Bytes → Bytes → Bytes × Option Bool
decode_group bufsize alphabet s out = elim (map_chars 8 alphabet s) [
  | none ↦ (out, none)
  | some m ↦ emit bufsize (next_bytes m) out
]

abbrev pub go_on_with : Bytes × Option Bool → (Bytes → Bytes × Bool) → Bytes × Bool
go_on_with (out, none) rest = (out, false)
go_on_with (out, some true) rest = (out, true)
go_on_with (out, some false) rest = rest out

-- `rfc4648_decode_base32_multi`, whose loop runs on the groups that are left: the bytes that are written,
-- and the result.
unfoldable pub decode_groups : ℕ → ℕ → Bytes → Bytes → Bytes → Bytes × Bool
decode_groups zero bufsize alphabet s out = (out, false)
decode_groups (suc turns) bufsize alphabet s out =
    go_on_with (decode_group bufsize alphabet s out)
      (λ out'. decode_groups turns bufsize alphabet (drop 8 s) out')

-- Every turn but the last takes eight characters.
unfoldable pub decode_base32_multi : ℕ → Bytes → Bytes → Bytes × Bool
decode_base32_multi bufsize s alphabet = decode_groups (length s / 8 + 1) bufsize alphabet s []

-- `rfc4648_decode_base32hex`
unfoldable pub decode_base32hex : ℕ → Bytes → Bytes × Bool
decode_base32hex bufsize s =
    decode_base32_multi bufsize s (codes "0123456789ABCDEFGHIJKLMNOPQRSTUV")

-- `rfc4648_decode_base32`
unfoldable pub decode_base32 : ℕ → Bytes → Bytes × Bool
decode_base32 bufsize s = decode_base32_multi bufsize s (codes "ABCDEFGHIJKLMNOPQRSTUVWXYZ234567")
