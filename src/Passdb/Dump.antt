-- ===== src/Passdb/Dump.antt =====
-- passdb.c: `passdb_entry_dump`, as the text that it prints.
use umsftpd.Prelude.{
  ℕ, ◌-◌, ◌*◌, ◌%◌, ◌^◌, [], ◌∷◌, ◌++◌, Option, none, some, Bytes, codes, ltb, if◌then◌else◌,
}
use umsftpd.Prelude.Printf.{decimal, column, hex_byte}
use umsftpd.Totp.{Config}
use umsftpd.Passdb.{
  Kdf, kdf_none, kdf_pbkdf2_sha256, kdf_scrypt, KdfParams, iterations, Entry, salt_size, pass_size,
}

-- `%02x` for each byte.
abbrev pub hex_bytes : Bytes → Bytes
hex_bytes [] = []
hex_bytes (b ∷ bytes) = hex_byte b ++ hex_bytes bytes

-- `%d` of an `unsigned int`.
abbrev pub as_int : ℕ → Bytes
as_int n = if ltb n (2 ^ 31) then decimal 10 n else codes "-" ++ decimal 10 (2 ^ 32 - n)

abbrev pub kdf_name : Kdf → Bytes
kdf_name kdf_none = codes "no password"
kdf_name kdf_pbkdf2_sha256 = codes "PBKDF2-SHA256"
kdf_name kdf_scrypt = codes "scrypt"

abbrev pub kdf_params_text : Kdf → KdfParams → Bytes
kdf_params_text kdf_none params = []
kdf_params_text kdf_pbkdf2_sha256 params = codes "iterations " ++ decimal 10 (iterations params)
kdf_params_text kdf_scrypt params =
    codes "N "
    ++ decimal 10 params.n
    ++ codes ", r "
    ++ decimal 10 params.r
    ++ codes ", p "
    ++ decimal 10 params.p
    ++ codes ", maxmem_mib "
    ++ decimal 10 params.maxmem_mib

-- The salt and the hash, for an entry that has them.
abbrev pub secrets_text : Kdf → Bytes → Bytes → Bytes
secrets_text kdf_none salt hash = []
secrets_text _ salt hash =
    codes "Salt ["
    ++ column 2 salt_size
    ++ codes "]: "
    ++ hex_bytes salt
    ++ codes "\nHash ["
    ++ column 2 pass_size
    ++ codes "]: "
    ++ hex_bytes hash
    ++ codes "\n"

-- The window in seconds, a product of `unsigned int`.
abbrev pub totp_text : Option Config → ℕ → Bytes
totp_text none totp_window_size = []
totp_text (some totp) totp_window_size =
    codes "TOTP enabled; window size +-"
    ++ as_int (totp.slice_time_seconds * totp_window_size % 2 ^ 32)
    ++ codes " seconds\n"

-- `passdb_entry_dump`
unfoldable pub entry_dump : Entry → Bytes
entry_dump entry =
    kdf_name entry.kdf
    ++ codes "("
    ++ kdf_params_text entry.kdf entry.params
    ++ codes ")\n"
    ++ secrets_text entry.kdf entry.salt entry.hash
    ++ totp_text entry.totp entry.totp_window_size
