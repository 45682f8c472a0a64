-- ===== src/Base32/Encode.antt =====
-- The encoding of RFC 4648, as the reference for the decoder of rfc4648.c.
use umsftpd.Prelude.{
  ℕ, zero, suc, ◌+◌, ◌*◌, ◌/◌, ◌%◌, Bool, true, false, List, [], ◌∷◌, ◌++◌, Option, none, some,
  Bytes, codes, char_at, length, leb, if◌then◌else◌,
}

abbrev pub base32_alphabet : Bytes
base32_alphabet = codes "ABCDEFGHIJKLMNOPQRSTUVWXYZ234567"

abbrev pub base32hex_alphabet : Bytes
base32hex_alphabet = codes "0123456789ABCDEFGHIJKLMNOPQRSTUV"

abbrev pub signs : Bytes → List ℕ → Bytes
signs alphabet [] = []
signs alphabet (d ∷ digits) = char_at alphabet d ∷ signs alphabet digits

-- The padding of a group, which some writers leave out.
abbrev pub padding : Bool → ℕ → Bytes
padding false n = []
padding true zero = []
padding true (suc n) = b'=' ∷ padding true n

-- The forty bits of five bytes, five by five; a group that ends early is filled up with zero bits.
abbrev pub encode : Bool → Bytes → Bytes → Bytes
encode padded alphabet [] = []
encode padded alphabet (a ∷ []) = signs alphabet (a / 8 ∷ a % 8 * 4 ∷ []) ++ padding padded 6
encode padded alphabet (a ∷ b ∷ []) =
    signs alphabet (a / 8 ∷ (a % 8 * 4 + b / 64) ∷ b / 2 % 32 ∷ b % 2 * 16 ∷ []) ++ padding padded 4
encode padded alphabet (a ∷ b ∷ c ∷ []) =
    signs alphabet
      (a / 8 ∷ (a % 8 * 4 + b / 64) ∷ b / 2 % 32 ∷ (b % 2 * 16 + c / 16) ∷ c % 16 * 2 ∷ [])
    ++ padding padded 3
encode padded alphabet (a ∷ b ∷ c ∷ d ∷ []) =
    signs alphabet (
      a / 8
      ∷ (a % 8 * 4 + b / 64)
      ∷ b / 2 % 32
      ∷ (b % 2 * 16 + c / 16)
      ∷ (c % 16 * 2 + d / 128)
      ∷ d / 4 % 32
      ∷ d % 4 * 8
      ∷ [])
    ++ padding padded 1
encode padded alphabet (a ∷ b ∷ c ∷ d ∷ e ∷ bytes) =
    signs alphabet (
      a / 8
      ∷ (a % 8 * 4 + b / 64)
      ∷ b / 2 % 32
      ∷ (b % 2 * 16 + c / 16)
      ∷ (c % 16 * 2 + d / 128)
      ∷ d / 4 % 32
      ∷ (d % 4 * 8 + e / 32)
      ∷ e % 32
      ∷ [])
    ++ encode padded alphabet bytes

-- The bytes, if the buffer can hold them.
abbrev pub fit : ℕ → Bytes → Option Bytes
fit bufsize bytes = if leb (length bytes) bufsize then some bytes else none
