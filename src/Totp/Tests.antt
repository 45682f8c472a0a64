-- ===== src/Totp/Tests.antt =====
-- rfc6238.c on the data of RFC 4226, appendix D.
use umsftpd.Prelude.{◌≤◌, ◌≡◌, refl, true, none, some, All, codes, length, done}
use umsftpd.Prelude.Int.{pos}
use umsftpd.Totp.{
  sha1, new, raise_modulo, generate, generate_at, generate_now, truncate, present, mac_data,
  le_bytes, from_le, bswap_64,
}
use umsftpd.Prelude.Printf.{decimal, padded}
use umsftpd.Totp.Vectors.{rfc_crypto, rfc_crypto-IsCrypto, rfc_config, rfc_config-IsConfig}
use umsftpd.Totp.Laws.{reference, generate_lem, generate-IsDigit}

new_test : new true (codes "12345678901234567890") sha1 30 6 ≡ some rfc_config
unfolding new raise_modulo
new_test = refl

too_long_test : new true (codes "12345678901234567890") sha1 30 9 ≡ none
unfolding new raise_modulo
too_long_test = refl

first_code_test : generate rfc_crypto rfc_config 0 ≡ done (some (codes "755224"))
unfolding generate truncate present padded decimal mac_data le_bytes from_le bswap_64
first_code_test = refl

second_code_test : generate_at rfc_crypto rfc_config (pos 59) ≡ done (some (codes "287082"))
unfolding generate_at generate truncate present padded decimal mac_data le_bytes from_le bswap_64
second_code_test = refl

-- At the time 59, `rfc6238_generate_now` gives another code than `rfc6238_generate_at`.
unsliced_test : generate_now rfc_crypto rfc_config (pos 59) ≡ done (some (codes "755224"))
unfolding generate_now generate truncate present padded decimal mac_data le_bytes from_le bswap_64
unsliced_test = refl

generate_lem_example : generate rfc_crypto rfc_config 1 ≡ done (reference rfc_crypto rfc_config 1)
generate_lem_example = generate_lem rfc_crypto rfc_config 1 rfc_crypto-IsCrypto rfc_config-IsConfig

generate-IsDigit_example :
    (length (codes "755224") ≡ 6) × All (λ c. (b'0' ≤ c) × (c ≤ b'9')) (codes "755224")
generate-IsDigit_example =
    generate-IsDigit rfc_crypto rfc_config 0 (codes "755224") rfc_crypto-IsCrypto
      rfc_config-IsConfig first_code_test
