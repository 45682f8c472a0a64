-- ===== src/Prelude/Printf.antt =====
-- What the conversions of `printf` write, as far as the program uses them.
use Prim.Native.Nat.{ℕ, zero, suc, ◌+◌, ◌-◌, ◌/◌, ◌%◌}
use mathlib.Core.List.{[], ◌∷◌, ◌++◌}
use umsftpd.Prelude.Tests.{ltb, if◌then◌else◌}
use umsftpd.Prelude.Lists.{length}
use umsftpd.Prelude.Strings.{Bytes}

-- The decimal text of a number, without padding; the first argument bounds the number of digits.
unfoldable pub decimal : ℕ → ℕ → Bytes
decimal zero n = []
decimal (suc bound) n =
    let rest = decimal bound (n / 10) in
    if ltb n 10 then (b'0' + n) ∷ [] else rest ++ (b'0' + n % 10) ∷ []

abbrev pub zeros : ℕ → Bytes
zeros zero = []
zeros (suc n) = b'0' ∷ zeros n

-- `%0*d` of `printf` for an `int` that is not negative, which has at most ten digits.
unfoldable pub padded : ℕ → ℕ → Bytes
unfolding decimal
padded width n = let text = decimal 10 n in zeros (width - length text) ++ text

abbrev pub spaces : ℕ → Bytes
spaces zero = []
spaces (suc n) = b' ' ∷ spaces n

-- `%*d`, `%*u` and `%*lu` of a number that is not negative, which has at most twenty digits.
unfoldable pub column : ℕ → ℕ → Bytes
unfolding decimal
column width n = let text = decimal 20 n in spaces (width - length text) ++ text

abbrev pub hex_digit : ℕ → ℕ
hex_digit d = if ltb d 10 then b'0' + d else b'a' + (d - 10)

-- `%x`, by a bound on the number of digits.
unfoldable pub hexadecimal : ℕ → ℕ → Bytes
hexadecimal zero n = []
hexadecimal (suc bound) n =
    let rest = hexadecimal bound (n / 16) in
    if ltb n 16 then hex_digit n ∷ [] else rest ++ hex_digit (n % 16) ∷ []

-- `%02x` of a byte.
abbrev pub hex_byte : ℕ → Bytes
hex_byte b = hex_digit (b / 16) ∷ hex_digit (b % 16) ∷ []
