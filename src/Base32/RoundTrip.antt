-- ===== src/Base32/RoundTrip.antt =====
-- The decoder of rfc4648.c takes back what the encoding of RFC 4648 does.
use umsftpd.Prelude.{
  ℕ, zero, suc, ◌+◌, ◌*◌, ◌/◌, ◌≤◌, ◌<◌, ◌≡◌, refl, ap, ◌∙◌, Bool, false, [], ◌∷◌, ◌++◌, Bytes,
  length, All, arith, append_assoc, drop,
}
use umsftpd.Base32.{nones, decode_base32_multi, decode_base32, decode_base32hex}
use umsftpd.Base32.Accepted.{
  continue_with, try_groups, try_multi, accepted, accepted-decode_base32_multi,
}
use umsftpd.Base32.Encode.{base32_alphabet, base32hex_alphabet, encode, fit}
use umsftpd.Base32.Signs.{IsAlphabet, base32-IsAlphabet, base32hex-IsAlphabet, map_chars-padding}
use umsftpd.Base32.Groups.{
  try_group-signs, ended, continued, group_1, group_2, group_3, group_4, group_5,
}

abbrev pub IsBytes : Bytes → Type 0
IsBytes bytes = All (λ (b : ℕ). b < 256) bytes

module _ (bufsize : ℕ) (padded : Bool) (alphabet : Bytes) (signed : IsAlphabet alphabet) where
  try_groups-encode :
      (turns : ℕ) (bytes out : Bytes)
      → IsBytes bytes
      → length out ≤ bufsize
      → length bytes < 5 * turns
      → try_groups turns bufsize alphabet (encode padded alphabet bytes) out
        ≡ fit bufsize (out ++ bytes)
  unfolding try_groups
  try_groups-encode zero bytes out h fits t = absurd (omega arith)
  try_groups-encode (suc turns) [] out h fits t =
      ap (λ o. continue_with o (try_groups turns bufsize alphabet []))
        (try_group-signs bufsize 8 alphabet [] [] [] (nones 5) out signed tt refl
          (map_chars-padding 8 0 false alphabet) refl fits)
      ∙ ended bufsize (nones 4) (out ++ []) (try_groups turns bufsize alphabet [])
  try_groups-encode (suc turns) (a ∷ []) out (ha, h) fits t =
      group_1 bufsize padded alphabet signed a out
        (λ o. try_groups turns bufsize alphabet (drop 8 (encode padded alphabet (a ∷ []))) o) ha
        fits
  try_groups-encode (suc turns) (a ∷ b ∷ []) out (ha, (hb, h)) fits t =
      group_2 bufsize padded alphabet signed a b out
        (λ o. try_groups turns bufsize alphabet (drop 8 (encode padded alphabet (a ∷ b ∷ []))) o) ha
        hb fits
  try_groups-encode (suc turns) (a ∷ b ∷ c ∷ []) out (ha, (hb, (hc, h))) fits t =
      group_3 bufsize padded alphabet signed a b c out
        (λ o.
          try_groups turns bufsize alphabet (drop 8 (encode padded alphabet (a ∷ b ∷ c ∷ []))) o)
        ha hb hc fits
  try_groups-encode (suc turns) (a ∷ b ∷ c ∷ d ∷ []) out (ha, (hb, (hc, (hd, h)))) fits t =
      group_4 bufsize padded alphabet signed a b c d out
        (λ o.
          try_groups turns bufsize alphabet (drop 8 (encode padded alphabet (a ∷ b ∷ c ∷ d ∷ [])))
            o)
        ha hb hc hd fits
  try_groups-encode (suc turns) (a ∷ b ∷ c ∷ d ∷ e ∷ bytes) out (ha, (hb, (hc, (hd, (he, h))))) fits
        t =
      let group = a ∷ b ∷ c ∷ d ∷ e ∷ [] in
      let rest =
        λ (o : Bytes). try_groups turns bufsize alphabet (encode padded alphabet bytes) o in
      let ih = λ (g : length (out ++ group) ≤ bufsize).
        try_groups-encode turns bytes (out ++ group) h g (omega arith) in
      ap (λ o. continue_with o rest)
        (group_5 bufsize padded alphabet signed a b c d e bytes out ha hb hc hd he fits)
      ∙ continued bufsize (out ++ group) bytes rest ih
      ∙ ap (fit bufsize) (append_assoc out group bytes)

length-encode_lem :
    (padded : Bool) (alphabet bytes : Bytes)
    → length bytes < 5 * (length (encode padded alphabet bytes) / 8 + 1)
length-encode_lem padded alphabet [] = omega arith
length-encode_lem padded alphabet (a ∷ []) = omega arith
length-encode_lem padded alphabet (a ∷ b ∷ []) = omega arith
length-encode_lem padded alphabet (a ∷ b ∷ c ∷ []) = omega arith
length-encode_lem padded alphabet (a ∷ b ∷ c ∷ d ∷ []) = omega arith
length-encode_lem padded alphabet (a ∷ b ∷ c ∷ d ∷ e ∷ bytes) =
    omega (arith, length-encode_lem padded alphabet bytes)

-- The decoders take back what RFC 4648 makes of any bytes, in base32 and in base32hex, with and
-- without the padding at the end: they give these bytes if the buffer can hold them, and report an
-- error if it cannot.
pub decode_base32-encode :
    (padded : Bool) (bufsize : ℕ) (bytes : Bytes)
    → IsBytes bytes
    → (accepted (decode_base32 bufsize (encode padded base32_alphabet bytes)) ≡ fit bufsize bytes)
      × (accepted (decode_base32hex bufsize (encode padded base32hex_alphabet bytes))
          ≡ fit bufsize bytes)
unfolding decode_base32 decode_base32hex try_multi
decode_base32-encode padded bufsize bytes h = (
  by_alphabet base32_alphabet base32-IsAlphabet,
  by_alphabet base32hex_alphabet base32hex-IsAlphabet,
)
  where
    by_alphabet :
        (alphabet : Bytes)
        → IsAlphabet alphabet
        → accepted (decode_base32_multi bufsize (encode padded alphabet bytes) alphabet)
          ≡ fit bufsize bytes
    by_alphabet alphabet signed =
        accepted-decode_base32_multi bufsize (encode padded alphabet bytes) alphabet
        ∙ try_groups-encode bufsize padded alphabet signed
            (length (encode padded alphabet bytes) / 8 + 1) bytes [] h (omega arith)
            (length-encode_lem padded alphabet bytes)
