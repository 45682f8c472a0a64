-- ===== src/Prelude/Strings.antt =====
-- C strings as lists of byte values without the terminating NUL, and the string.h functions that
-- the program calls on them.
use Prim.Native.Nat.{ℕ, zero, suc}
use Prim.Native.Char.{code}
use Prim.Native.String.{String}
use mathlib.Core.Path.{◌≡◌, refl}
use mathlib.Core.Logic.{◌↔◌}
use mathlib.Core.Bool.{Bool, true, false, ◌&&◌}
use mathlib.Core.List.{List, [], ◌∷◌}
use native.Mathlib.Omega.{arith}
use umsftpd.Prelude.Tests.{◌==◌}
use umsftpd.Prelude.Lists.{length, get_or}

abbrev pub Bytes : Type 0
Bytes = List ℕ

-- The bytes of an ASCII literal.
abbrev pub codes : String → Bytes
codes String.[] = []
codes (String.◌∷◌ c s) = code c ∷ codes s

-- `s[i]`, which is the NUL at `i = strlen(s)`.
abbrev pub char_at : Bytes → ℕ → ℕ
char_at s i = get_or s i 0

-- `!strcmp(a, b)`
abbrev pub str_eq : Bytes → Bytes → Bool
str_eq [] [] = true
str_eq [] (y ∷ b) = false
str_eq (x ∷ a) [] = false
str_eq (x ∷ a) (y ∷ b) = (x == y) && str_eq a b

-- `!strncmp(a, b, n)`
abbrev pub strn_eq : ℕ → Bytes → Bytes → Bool
strn_eq zero a b = true
strn_eq (suc n) [] [] = true
strn_eq (suc n) [] (y ∷ b) = false
strn_eq (suc n) (x ∷ a) [] = false
strn_eq (suc n) (x ∷ a) (y ∷ b) = (x == y) && strn_eq n a b

pub str_eq→eq : (a b : Bytes) → str_eq a b ≡ true → a ≡ b
str_eq→eq [] [] h = refl
str_eq→eq [] (y ∷ b) h = ground arith
str_eq→eq (x ∷ a) [] h = ground arith
str_eq→eq (x ∷ a) (y ∷ b) h = ground (arith, str_eq→eq a b)

pub str_eq_refl : (a : Bytes) → str_eq a a ≡ true
str_eq_refl [] = refl
str_eq_refl (x ∷ a) = ground (arith, str_eq_refl a)

pub str_eq_iff : (a b : Bytes) → (str_eq a b ≡ true) ↔ (a ≡ b)
str_eq_iff a b = (str_eq→eq a b, λ e. rw e (str_eq_refl b))

-- On two strings of the length compared, `strncmp` is `strcmp`.
pub strn_eq-str_eq :
    (n : ℕ) (a b : Bytes) → length a ≡ n → length b ≡ n → strn_eq n a b ≡ str_eq a b
strn_eq-str_eq zero [] [] p q = refl
strn_eq-str_eq zero [] (y ∷ b) p q = absurd (omega arith)
strn_eq-str_eq zero (x ∷ a) b p q = absurd (omega arith)
strn_eq-str_eq (suc n) [] b p q = absurd (omega arith)
strn_eq-str_eq (suc n) (x ∷ a) [] p q = absurd (omega arith)
strn_eq-str_eq (suc n) (x ∷ a) (y ∷ b) p q =
    ground (arith, strn_eq-str_eq n a b (omega arith) (omega arith))
