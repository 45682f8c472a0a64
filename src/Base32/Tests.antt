-- ===== src/Base32/Tests.antt =====
-- rfc4648.c on concrete texts.
use umsftpd.Prelude.{◌≡◌, true, false, ◌≤◌, length, arith, refl, none, codes}
use umsftpd.Base32.{
  decode_base32, decode_base32hex, decode_base32_multi, decode_groups, decode_group, emit,
  map_chars, index_of,
}
use umsftpd.Base32.Laws.{decode_base32_multi-FitsIn}
use umsftpd.Base32.Encode.{encode, base32_alphabet, base32hex_alphabet}
use umsftpd.Base32.Accepted.{accepted}
use umsftpd.Base32.RoundTrip.{decode_base32-encode}

decode_test : decode_base32 10 (codes "MZXW6YTBOI======") ≡ (codes "foobar", true)
unfolding decode_base32 decode_base32_multi decode_groups decode_group emit map_chars index_of
decode_test = refl

too_small_test : decode_base32 5 (codes "MZXW6YTBOI======") ≡ (codes "fooba", false)
unfolding decode_base32 decode_base32_multi decode_groups decode_group emit map_chars index_of
too_small_test = refl

decode_base32_multi-FitsIn_example :
    length
      (decode_base32_multi 5
        (codes "MZXW6YTBOI======")
        (codes "ABCDEFGHIJKLMNOPQRSTUVWXYZ234567")).0
    ≤ 5
decode_base32_multi-FitsIn_example =
    decode_base32_multi-FitsIn 5 (codes "MZXW6YTBOI======")
      (codes "ABCDEFGHIJKLMNOPQRSTUVWXYZ234567")

decode_base32-encode_example :
    (accepted (decode_base32 3 (encode true base32_alphabet (codes "foobar"))) ≡ none)
    × (accepted (decode_base32hex 3 (encode true base32hex_alphabet (codes "foobar"))) ≡ none)
decode_base32-encode_example =
    decode_base32-encode true 3 (codes "foobar")
      (omega arith, (omega arith, (omega arith, (omega arith, (omega arith, (omega arith, tt))))))

encode_test : encode true base32_alphabet (codes "foobar") ≡ codes "MZXW6YTBOI======"
encode_test = refl

encode_hex_test : encode false base32hex_alphabet (codes "fooba") ≡ codes "CPNMUOJ1"
encode_hex_test = refl
