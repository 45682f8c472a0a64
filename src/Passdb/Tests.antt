-- ===== src/Passdb/Tests.antt =====
-- passdb.c with a derivation that copies the passphrase, and the codes of RFC 4226.
use umsftpd.Prelude.{
  ◌∷◌, ◌+◌, ◌*◌, ◌≤◌, ◌<◌, ◌≡◌, refl, true, false, [], Option, none, some, Bytes, codes, done,
  arith,
}
use umsftpd.Prelude.Int.{pos}
use umsftpd.Totp.{
  Config, generate_at, generate, truncate, present, mac_data, le_bytes, from_le, bswap_64,
}
use umsftpd.Prelude.Printf.{decimal, padded, column}
use umsftpd.Passdb.Dump.{entry_dump}
use umsftpd.Totp.Vectors.{rfc_crypto, rfc_crypto-IsCrypto, rfc_config, rfc_config-IsConfig}
use umsftpd.Passdb.{
  kdf_none, kdf_scrypt, default_params, Entry, Derivations, derive, create_entry, attach_totp,
  validate_config, try_offsets, validate_window, validate_derived, validate_around, validate,
}
use umsftpd.Passdb.Laws.{IsTimely}
use umsftpd.Passdb.Accept.{IsPassphrase, IsCurrent, Decides}
use umsftpd.Passdb.Validate.{validate_around_lem, validate_around-short}
use umsftpd.Passdb.Entries.{create_entry-validate_around, validate_around-plain, attach_totp_lem}

-- The key is the passphrase.
abbrev copying : Derivations
copying = record {
  pbkdf2 = λ passphrase salt n size. (true, passphrase);
  Context = Bytes;
  ctx_new = some [];
  derive_init = λ c. some c;
  set_pass = λ passphrase c. some passphrase;
  set_salt = λ salt c. some c;
  set_n = λ n c. some c;
  set_r = λ r c. some c;
  set_p = λ p c. some c;
  set_maxmem_bytes = λ n c. some c;
  derive_key = λ c size. (true, c);
}

abbrev salt : Bytes
salt = codes "0123456789abcdef"

abbrev blank : Entry
blank = record {
  kdf = kdf_none;
  params = default_params kdf_none;
  salt = salt;
  hash = [];
  totp = none;
  totp_window_size = 0;
}

abbrev protected : Option Config → Entry
protected totp = record {
  kdf = kdf_scrypt;
  params = default_params kdf_scrypt;
  salt = salt;
  hash = codes "hunter2";
  totp = totp;
  totp_window_size = 1;
}

abbrev before : Option Config → Entry
before totp = record blank { totp = totp; totp_window_size = 1 }

created_test :
    create_entry copying salt (before none) kdf_scrypt none (codes "hunter2")
    ≡ (true, protected none)
unfolding create_entry derive
created_test = refl

attached_test : attach_totp (protected none) rfc_config 30 ≡ done (protected (some rfc_config))
unfolding attach_totp
attached_test = refl

no_random_test : (create_entry copying [] blank kdf_scrypt none (codes "hunter2")).0 ≡ false
unfolding create_entry derive
no_random_test = refl

-- The code of the counter 1, at the times of the counters 2 and 3.
late_test :
    validate_around copying rfc_crypto []
      (protected (some rfc_config))
      (codes "hunter2287082")
      (pos 75)
    ≡ done true
unfolding validate_around validate_derived validate_window try_offsets validate_config derive
    generate_at generate truncate present padded decimal mac_data le_bytes from_le bswap_64
late_test = refl

too_late_test :
    validate_around copying rfc_crypto []
      (protected (some rfc_config))
      (codes "hunter2287082")
      (pos 90)
    ≡ done false
unfolding validate_around validate_derived validate_window try_offsets validate_config derive
    generate_at generate truncate present padded decimal mac_data le_bytes from_le bswap_64
too_late_test = refl

timely : IsTimely rfc_config 1 (pos 75)
timely = record {
  slices = omega arith;
  short = omega arith;
  few = omega arith;
  near = omega arith;
  clock = omega arith;
}

validate_around_lem_example :
    Decides
      (validate_around copying rfc_crypto []
        (protected (some rfc_config))
        (codes "hunter2287082")
        (pos 75))
      (IsPassphrase copying [] (protected (some rfc_config)) (codes "hunter2")
        × IsCurrent rfc_crypto rfc_config 1 (pos 75) (codes "287082"))
validate_around_lem_example =
    validate_around_lem copying rfc_crypto [] (protected (some rfc_config)) rfc_config (pos 75) refl
      rfc_crypto-IsCrypto rfc_config-IsConfig timely (codes "hunter2") (codes "287082") refl
      (omega arith)

validate_around-short_example :
    validate_around copying rfc_crypto [] (protected (some rfc_config)) (codes "28708") (pos 75)
    ≡ done false
validate_around-short_example =
    validate_around-short copying rfc_crypto [] (protected (some rfc_config)) rfc_config (pos 75)
      refl rfc_crypto-IsCrypto rfc_config-IsConfig timely (codes "28708") (omega arith)

create_entry-validate_around_example :
    Decides
      (validate_around copying rfc_crypto []
        (protected (some rfc_config))
        (codes "hunter2287082")
        (pos 75))
      (IsCurrent rfc_crypto rfc_config 1 (pos 75) (codes "287082"))
create_entry-validate_around_example =
    create_entry-validate_around copying salt (before none) kdf_scrypt none (codes "hunter2")
      (protected none) 30 (protected (some rfc_config)) rfc_crypto [] rfc_config (pos 75)
      (codes "287082") created_test (omega arith) attached_test rfc_crypto-IsCrypto
      rfc_config-IsConfig timely refl

validate_around-plain_example :
    Decides
      (validate_around copying rfc_crypto [] (protected none) (codes "hunter2") (pos 75))
      (IsPassphrase copying [] (protected none) (codes "hunter2"))
validate_around-plain_example =
    validate_around-plain copying rfc_crypto [] (protected none) (pos 75) (codes "hunter2") refl
      (omega arith)

wrong_test : validate copying rfc_crypto [] (protected none) (codes "hunter3") (pos 75) ≡ done false
unfolding validate validate_around validate_derived validate_window validate_config derive
wrong_test = refl

attach_totp_lem_example :
    (attached : Entry) × (attach_totp (protected none) rfc_config 45 ≡ done attached)
    × (attached.totp ≡ some rfc_config)
    × (45 ≤ attached.totp_window_size * 30)
    × (attached.totp_window_size * 30 < 45 + 30)
    × ((os : Derivations) (stack p : Bytes)
        → IsPassphrase os stack (protected none) p
        → IsPassphrase os stack attached p)
attach_totp_lem_example = attach_totp_lem (protected none) rfc_config 45 (omega arith) (omega arith)

entry_dump_test :
    entry_dump (record blank {
      kdf = kdf_scrypt;
      params = default_params kdf_scrypt;
      salt = 10 ∷ 255 ∷ [];
      hash = [];
    })
    ≡ codes "scrypt(N 32768, r 8, p 1, maxmem_mib 33)\nSalt [16]: 0aff\nHash [32]: \n"
unfolding entry_dump column decimal
entry_dump_test = refl
