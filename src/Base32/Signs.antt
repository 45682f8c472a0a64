-- ===== src/Base32/Signs.antt =====
-- The alphabets of rfc4648.c, and `mapped_chars` on the signs of a group.
use mathlib.Core.List.{map}
use umsftpd.Prelude.{
  ℕ, zero, suc, ◌<◌, ◌≡◌, refl, sym, ap, ◌∙◌, Bool, true, false, List, [], ◌∷◌, ◌++◌, Option, none,
  some, ◌||◌, ◌&&◌, ◌==◌, ==_iff, Bytes, char_at, All, all_below, all_below_sound, if◌then◌else◌,
  not,
}
use umsftpd.Base32.{padding_char, index_of, nones, with_char, map_chars}
use umsftpd.Base32.Encode.{base32_alphabet, base32hex_alphabet, signs, padding}

-- An alphabet whose 32 signs are found where they stand, and are neither NUL nor the padding.
abbrev pub IsSign : Bytes → ℕ → Type 0
IsSign alphabet d =
    (index_of alphabet (char_at alphabet d) ≡ some d)
    × (((char_at alphabet d == 0) || (char_at alphabet d == padding_char)) ≡ false)

is_index : ℕ → Option ℕ → Bool
is_index d none = false
is_index d (some i) = i == d

sign_test : Bytes → ℕ → Bool
sign_test alphabet d =
    is_index d (index_of alphabet (char_at alphabet d))
    && not ((char_at alphabet d == 0) || (char_at alphabet d == padding_char))

base32_table : all_below 32 (sign_test base32_alphabet) ≡ true
unfolding sign_test is_index index_of
base32_table = refl

base32hex_table : all_below 32 (sign_test base32hex_alphabet) ≡ true
unfolding sign_test is_index index_of
base32hex_table = refl

is_index_eq : (d : ℕ) (o : Option ℕ) → is_index d o ≡ true → o ≡ some d
unfolding is_index
is_index_eq d none h = cc
is_index_eq d (some i) h = ap some ((==_iff i d).0 h)

sign_test-IsSign : (alphabet : Bytes) (d : ℕ) → sign_test alphabet d ≡ true → IsSign alphabet d
unfolding sign_test
sign_test-IsSign alphabet d h = (
  is_index_eq d (index_of alphabet (char_at alphabet d)) (
      left (is_index d (index_of alphabet (char_at alphabet d)))
        (not ((char_at alphabet d == 0) || (char_at alphabet d == padding_char))) h),
  not_true ((char_at alphabet d == 0) || (char_at alphabet d == padding_char)) (
      right (is_index d (index_of alphabet (char_at alphabet d)))
        (not ((char_at alphabet d == 0) || (char_at alphabet d == padding_char))) h),
)
  where
    left : (x y : Bool) → (x && y) ≡ true → x ≡ true
    left true y h = refl
    left false y h = h

    right : (x y : Bool) → (x && y) ≡ true → y ≡ true
    right true y h = h
    right false y h = cc

    not_true : (x : Bool) → not x ≡ true → x ≡ false
    not_true true h = sym h
    not_true false h = refl

-- Every one of the 32 values has its sign.
abbrev pub IsAlphabet : Bytes → Type 0
IsAlphabet alphabet = (d : ℕ) → d < 32 → IsSign alphabet d

pub base32-IsAlphabet : IsAlphabet base32_alphabet
base32-IsAlphabet d h =
    sign_test-IsSign base32_alphabet d
      (all_below_sound 32 (sign_test base32_alphabet) d base32_table h)

pub base32hex-IsAlphabet : IsAlphabet base32hex_alphabet
base32hex-IsAlphabet d h =
    sign_test-IsSign base32hex_alphabet d
      (all_below_sound 32 (sign_test base32hex_alphabet) d base32hex_table h)

abbrev pub IsDigits : List ℕ → Type 0
IsDigits digits = All (λ (d : ℕ). d < 32) digits

pub map_chars-padding :
    (n k : ℕ) (padded : Bool) (alphabet : Bytes)
    → map_chars n alphabet (padding padded (suc k)) ≡ some (nones n)
unfolding map_chars
map_chars-padding zero k padded alphabet = refl
map_chars-padding (suc n) k true alphabet = refl
map_chars-padding (suc n) k false alphabet = refl

abbrev pub count : List ℕ → ℕ → ℕ
count [] n = n
count (d ∷ digits) n = suc (count digits n)

-- A group of digits, then its padding.
pub map_chars-group :
    (alphabet : Bytes) (digits : List ℕ) (n : ℕ) (s : Bytes)
    → IsAlphabet alphabet
    → IsDigits digits
    → map_chars n alphabet s ≡ some (nones n)
    → map_chars (count digits n) alphabet (signs alphabet digits ++ s)
      ≡ some (map some digits ++ nones n)
unfolding map_chars
map_chars-group alphabet [] n s a h k = k
map_chars-group alphabet (d ∷ digits) n s a (p, h) k =
    let (found, sign) = a d p in
    let rest : Option (List (Option ℕ)) =
      map_chars (count digits n) alphabet (signs alphabet digits ++ s) in
    let ih = map_chars-group alphabet digits n s a h k in
    ap
      (λ (b : Bool).
        if b
        then some (nones (suc (count digits n)))
        else with_char (index_of alphabet (char_at alphabet d)) rest)
      sign
    ∙ ap (λ (o : Option ℕ). with_char o rest) found
    ∙ ap (λ (o : Option (List (Option ℕ))). with_char (some d) o) ih
