-- ===== src/Totp/Decimal.antt =====
-- The text of a code (rfc6238.c): what `printf` writes is the decimal digits of the number.
use native.Mathlib.Nat.{pow-suc}
use umsftpd.Prelude.{
  ℕ, zero, suc, ◌+◌, ◌-◌, ◌*◌, ◌/◌, ◌%◌, ◌^◌, ◌≤◌, ◌<◌, ◌≡◌, refl, sym, ap, ◌∙◌, true, false, [],
  ◌∷◌, ◌++◌, Bytes, All, All-append, length, length-append, ltb, append_assoc, append-nil, if-cases,
  arith,
}
use mathlib.Core.List.{foldl, foldl-append}
use umsftpd.Totp.{raise_modulo}
use umsftpd.Prelude.Printf.{decimal, padded, zeros}

-- The last `width` decimal digits of a number.
unfoldable pub fixed_digits : ℕ → ℕ → Bytes
fixed_digits zero n = []
fixed_digits (suc width) n = fixed_digits width (n / 10) ++ (b'0' + n % 10) ∷ []

abbrev pub IsDigit : ℕ → Type 0
IsDigit c = (b'0' ≤ c) × (c ≤ b'9')

-- The number that a text of digits spells behind `n`.
abbrev pub spelled : ℕ → Bytes → ℕ
spelled = foldl (λ n c. n * 10 + (c - b'0'))

fixed_digits-suc :
    (width n : ℕ) → fixed_digits (suc width) n ≡ fixed_digits width (n / 10) ++ (b'0' + n % 10) ∷ []
unfolding fixed_digits
fixed_digits-suc width n = refl

pub length-fixed_digits : (width n : ℕ) → length (fixed_digits width n) ≡ width
unfolding fixed_digits
length-fixed_digits zero n = refl
length-fixed_digits (suc width) n = omega (
  arith,
  length-append (fixed_digits width (n / 10)) ((b'0' + n % 10) ∷ []),
  length-fixed_digits width (n / 10),
)

pub fixed_digits-IsDigit : (width n : ℕ) → All IsDigit (fixed_digits width n)
unfolding fixed_digits
fixed_digits-IsDigit zero n = tt
fixed_digits-IsDigit (suc width) n =
    All-append IsDigit (fixed_digits width (n / 10)) ((b'0' + n % 10) ∷ [])
      (fixed_digits-IsDigit width (n / 10)) (omega arith)

pub ten_pow : (k : ℕ) → 10 ^ suc k ≡ 10 ^ k * 10
ten_pow k = pow-suc 10 k

pub spelled-fixed_digits : (width n : ℕ) → n < 10 ^ width → spelled 0 (fixed_digits width n) ≡ n
unfolding fixed_digits
spelled-fixed_digits zero n h = omega arith
spelled-fixed_digits (suc width) n h =
    foldl-append (λ m c. m * 10 + (c - b'0')) 0 (fixed_digits width (n / 10)) ((b'0' + n % 10) ∷ [])
    ∙ omega (arith, spelled-fixed_digits width (n / 10) (omega (arith, ten_pow width)))

zeros_snoc : (n : ℕ) → zeros n ++ b'0' ∷ [] ≡ zeros (suc n)
zeros_snoc zero = refl
zeros_snoc (suc n) = ap (λ s. b'0' ∷ s) (zeros_snoc n)

fixed_digits-zero : (width : ℕ) → fixed_digits width 0 ≡ zeros width
unfolding fixed_digits
fixed_digits-zero zero = refl
fixed_digits-zero (suc width) =
    ap (λ s. s ++ b'0' ∷ []) (fixed_digits-zero width) ∙ zeros_snoc width

abbrev pad : ℕ → Bytes → Bytes
pad width text = zeros (width - length text) ++ text

pad_snoc :
    (width : ℕ) (text : Bytes) (c : ℕ) → pad (suc width) (text ++ c ∷ []) ≡ pad width text ++ c ∷ []
pad_snoc width text c =
    let less : suc width - length (text ++ c ∷ []) ≡ width - length text =
      omega (arith, length-append text (c ∷ [])) in
    ap (λ k. zeros k ++ (text ++ c ∷ [])) less
    ∙ sym (append_assoc (zeros (width - length text)) text (c ∷ []))

pad_digit : (width n : ℕ) → n < 10 → pad (suc width) ((b'0' + n) ∷ []) ≡ fixed_digits (suc width) n
unfolding fixed_digits
pad_digit width n h =
    let none_above : n / 10 ≡ 0 = omega arith in
    let all : n % 10 ≡ n = omega arith in
    let whole : width - 0 ≡ width = omega arith in
    pad_snoc width [] (b'0' + n)
    ∙ ap (λ z. (zeros z ++ []) ++ (b'0' + n) ∷ []) whole
    ∙ ap (λ s. s ++ (b'0' + n) ∷ []) (append-nil (zeros width) ∙ sym (fixed_digits-zero width))
    ∙ ap (λ d. fixed_digits width 0 ++ (b'0' + d) ∷ []) (sym all)
    ∙ ap (λ d. fixed_digits width d ++ (b'0' + n % 10) ∷ []) (sym none_above)

ltb-small : (n : ℕ) → ltb n 10 ≡ true → n < 10
ltb-small n e = ground arith

ltb-large : (n : ℕ) → ltb n 10 ≡ false → 10 ≤ n
ltb-large n e = ground arith

-- Padding with zeros to a width that the number fits gives its digits of that width.
pad-decimal :
    (bound width n : ℕ)
    → width < bound
    → n < 10 ^ suc width
    → pad (suc width) (decimal bound n) ≡ fixed_digits (suc width) n
unfolding decimal
pad-decimal zero width n b h = absurd (omega arith)
pad-decimal (suc bound) zero n b h =
    let rest = decimal bound (n / 10) in
    if-cases (λ text. pad 1 text ≡ fixed_digits 1 n) (ltb n 10) {x = (b'0' + n) ∷ []}
      {y = rest ++ (b'0' + n % 10) ∷ []} (λ e. pad_digit zero n (ltb-small n e))
      (λ e. absurd (omega (arith, ltb-large n e)))
pad-decimal (suc bound) (suc width) n b h =
    let rest = decimal bound (n / 10) in
    let ih = pad-decimal bound width (n / 10) (omega arith) (omega (arith, ten_pow (suc width))) in
    if-cases (λ text. pad (suc (suc width)) text ≡ fixed_digits (suc (suc width)) n) (ltb n 10)
      {x = (b'0' + n) ∷ []} {y = rest ++ (b'0' + n % 10) ∷ []}
      (λ e. pad_digit (suc width) n (ltb-small n e))
      (λ e.
        pad_snoc (suc width) rest (b'0' + n % 10)
        ∙ ap (λ s. s ++ (b'0' + n % 10) ∷ []) ih
        ∙ sym (fixed_digits-suc (suc width) n))

pub padded-fixed_digits :
    (width n : ℕ)
    → width < 10
    → n < 10 ^ suc width
    → padded (suc width) n ≡ fixed_digits (suc width) n
unfolding padded
padded-fixed_digits width n b h = pad-decimal 10 width n b h

-- The modulus is a power of ten: with at most eight digits it does not wrap around.
pub raise_modulo-pow : (rounds : ℕ) → rounds ≤ 8 → raise_modulo rounds 1 ≡ 10 ^ rounds
unfolding raise_modulo
raise_modulo-pow zero h = refl
raise_modulo-pow (suc zero) h = refl
raise_modulo-pow (suc (suc zero)) h = refl
raise_modulo-pow (suc (suc (suc zero))) h = refl
raise_modulo-pow (suc (suc (suc (suc zero)))) h = refl
raise_modulo-pow (suc (suc (suc (suc (suc zero))))) h = refl
raise_modulo-pow (suc (suc (suc (suc (suc (suc zero)))))) h = refl
raise_modulo-pow (suc (suc (suc (suc (suc (suc (suc zero))))))) h = refl
raise_modulo-pow (suc (suc (suc (suc (suc (suc (suc (suc zero)))))))) h = refl
raise_modulo-pow (suc (suc (suc (suc (suc (suc (suc (suc (suc n))))))))) h = absurd (omega arith)
