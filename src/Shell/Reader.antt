-- ===== src/Shell/Reader.antt =====
-- A reader for the lines of the listing of vfsdebug.c: its numbers and its mode.
use mathlib.Core.List.{foldl, foldl-append}
use umsftpd.Prelude.{
  ℕ, zero, suc, ◌+◌, ◌-◌, ◌*◌, ◌/◌, ◌%◌, ◌^◌, ◌<◌, ◌≡◌, refl, sym, ap, ◌∙◌, Bool, true, false, not,
  ◌||◌, [], ◌∷◌, ◌++◌, Bytes, All, All-append, char_at, length, take, drop, all_below,
  all_below_sound, ltb, ◌==◌, ==_iff, bit_and, if◌then◌else◌, if-cases, arith, append_assoc,
}
use umsftpd.Prelude.Printf.{decimal, column, spaces}
use umsftpd.Totp.Decimal.{IsDigit, spelled, ten_pow}
use umsftpd.Shell.Print.{mode_text}

-- What a reader learns of an entry.
pub record Listed : Type 0 where
  pub is_file : Bool
  pub permissions : ℕ
  pub uid : ℕ
  pub gid : ℕ
  pub filesize : ℕ
  pub filename : Bytes

abbrev pub skip : Bytes → Bytes
skip [] = []
skip (c ∷ s) = let rest = skip s in if c == b' ' then rest else c ∷ s

-- A text up to its first space, and from there on.
abbrev pub word : Bytes → Bytes
word [] = []
word (c ∷ s) = let rest = word s in if c == b' ' then [] else c ∷ rest

abbrev pub behind : Bytes → Bytes
behind [] = []
behind (c ∷ s) = let rest = behind s in if c == b' ' then c ∷ s else rest

-- Letters of a mode as the digits of a binary number.
abbrev pub read_mode : Bytes → ℕ
read_mode = foldl (λ n c. n * 2 + (if c == b'-' then 0 else 1)) 0

abbrev pub has_x : Bytes → Bool
has_x [] = false
has_x (c ∷ s) = (c == b'x') || has_x s

abbrev pub drop_last : ℕ → Bytes → Bytes
drop_last n s = take (length s - n) s

-- A name at the end of a line, between the signs of its colour.
abbrev pub read_name : Bool → Bytes → Bytes
read_name true s = drop_last 5 (drop 8 s)
read_name false s = drop_last 1 s

abbrev pub read_number : Bytes → ℕ
read_number s = spelled 0 (word (skip s))

-- The columns of a line: the type and the mode, three numbers, a time of 19 characters, the name.
abbrev pub read_line : Bytes → Listed
read_line s =
    let mode = take 9 (drop 1 s) in
    let at_uid = drop 10 s in
    let at_gid = behind (skip at_uid) in
    let at_size = behind (skip at_gid) in
    let at_time = behind (skip at_size) in
    let is_directory = char_at s 0 == b'd' in
    record {
      is_file = not is_directory;
      permissions = read_mode mode;
      uid = read_number at_uid;
      gid = read_number at_gid;
      filesize = read_number at_size;
      filename = read_name (is_directory || has_x mode) (drop 2 (drop 19 (drop 2 at_time)));
    }

-- The digits of a decimal text.
decimal-IsDigit : (bound n : ℕ) → All IsDigit (decimal bound n)
unfolding decimal
decimal-IsDigit zero n = tt
decimal-IsDigit (suc bound) n =
    let rest = decimal bound (n / 10) in
    let ih = decimal-IsDigit bound (n / 10) in
    if-cases (All IsDigit) (ltb n 10) {x = (b'0' + n) ∷ []} {y = rest ++ (b'0' + n % 10) ∷ []}
      (λ e. (ground arith, tt))
      (λ _. All-append IsDigit rest ((b'0' + n % 10) ∷ []) ih (omega arith, tt))

spelled-decimal : (bound n : ℕ) → n < 10 ^ bound → spelled 0 (decimal bound n) ≡ n
unfolding decimal
spelled-decimal zero n h = omega arith
spelled-decimal (suc bound) n h =
    let rest = decimal bound (n / 10) in
    let ih = spelled-decimal bound (n / 10) in
    if-cases (λ s. spelled 0 s ≡ n) (ltb n 10) {x = (b'0' + n) ∷ []}
      {y = rest ++ (b'0' + n % 10) ∷ []} (λ e. omega arith)
      (λ _.
        foldl-append (λ m c. m * 10 + (c - b'0')) 0 rest ((b'0' + n % 10) ∷ [])
        ∙ omega (arith, ih (omega (arith, ten_pow bound))))

-- A text that begins with a digit.
abbrev Begins : Bytes → Type 0
Begins [] = ⊥
Begins (c ∷ s) = IsDigit c

Begins-append : (s t : Bytes) → Begins s → Begins (s ++ t)
Begins-append [] t h = absurd h
Begins-append (c ∷ s) t h = h

All-Begins : (s : Bytes) (c : ℕ) → All IsDigit (s ++ c ∷ []) → Begins (s ++ c ∷ [])
All-Begins [] c h = h.0
All-Begins (x ∷ s) c h = h.0

decimal-Begins : (bound n : ℕ) → Begins (decimal (suc bound) n)
unfolding decimal
decimal-Begins bound n =
    let rest = decimal bound (n / 10) in
    let last = (b'0' + n % 10) ∷ [] in
    if-cases Begins (ltb n 10) {x = (b'0' + n) ∷ []} {y = rest ++ last} (λ e. ground arith)
      (λ _.
        All-Begins rest (b'0' + n % 10)
          (All-append IsDigit rest last (decimal-IsDigit bound (n / 10)) (omega arith, tt)))

not_space : (c : ℕ) → IsDigit c → (c == b' ') ≡ false
not_space c (h, k) = ground arith

word-digits : (s t : Bytes) → All IsDigit s → word (s ++ b' ' ∷ t) ≡ s
word-digits [] t h = refl
word-digits (c ∷ s) t (d, h) =
    ap (λ b. if b then [] else c ∷ word (s ++ b' ' ∷ t)) (not_space c d)
    ∙ ap (λ u. c ∷ u) (word-digits s t h)

behind-digits : (s t : Bytes) → All IsDigit s → behind (s ++ b' ' ∷ t) ≡ b' ' ∷ t
behind-digits [] t h = refl
behind-digits (c ∷ s) t (d, h) =
    ap (λ b. if b then c ∷ (s ++ b' ' ∷ t) else behind (s ++ b' ' ∷ t)) (not_space c d)
    ∙ behind-digits s t h

skip-Begins : (s : Bytes) → Begins s → skip s ≡ s
skip-Begins [] h = absurd h
skip-Begins (c ∷ s) h = ap (λ b. if b then skip s else c ∷ s) (not_space c h)

skip-spaces : (n : ℕ) (s : Bytes) → skip (spaces n ++ s) ≡ skip s
skip-spaces zero s = refl
skip-spaces (suc n) s = skip-spaces n s

skip-column : (width n : ℕ) (t : Bytes) → skip (column width n ++ t) ≡ decimal 20 n ++ t
unfolding column
skip-column width n t =
    let text = decimal 20 n in
    ap skip (append_assoc (spaces (width - length text)) text t)
    ∙ skip-spaces (width - length text) (text ++ t)
    ∙ skip-Begins (text ++ t) (Begins-append text t (decimal-Begins 19 n))

-- A column is read as its number, and what follows it is what is left.
pub read_number-column :
    (width n : ℕ) (t : Bytes) → n < 2 ^ 64 → read_number (column width n ++ b' ' ∷ t) ≡ n
read_number-column width n t h =
    ap (λ s. spelled 0 (word s)) (skip-column width n (b' ' ∷ t))
    ∙ ap (spelled 0) (word-digits (decimal 20 n) t (decimal-IsDigit 20 n))
    ∙ spelled-decimal 20 n (omega arith)

pub behind-column :
    (width n : ℕ) (t : Bytes) → behind (skip (column width n ++ b' ' ∷ t)) ≡ b' ' ∷ t
behind-column width n t =
    ap behind (skip-column width n (b' ' ∷ t))
    ∙ behind-digits (decimal 20 n) t (decimal-IsDigit 20 n)

-- The mode: every value of nine bits is read back, and shows an "x" if somebody may execute the file.
mode_table : all_below 512 (λ p. read_mode (mode_text 3 p) == p) ≡ true
mode_table = refl

abbrev pub may_execute : ℕ → Bool
may_execute p = not (bit_and p 73 == 0)

abbrev same_bool : Bool → Bool → Bool
same_bool true b = b
same_bool false b = not b

same_bool_eq : (a b : Bool) → same_bool a b ≡ true → a ≡ b
same_bool_eq true b h = sym h
same_bool_eq false true h = h
same_bool_eq false false h = refl

x_table : all_below 512 (λ p. same_bool (has_x (mode_text 3 p)) (may_execute p)) ≡ true
x_table = refl

pub read_mode-mode_text : (p : ℕ) → p < 512 → read_mode (mode_text 3 p) ≡ p
read_mode-mode_text p h =
    (==_iff (read_mode (mode_text 3 p)) p).0
      (all_below_sound 512 (λ p. read_mode (mode_text 3 p) == p) p mode_table h)

pub has_x-mode_text : (p : ℕ) → p < 512 → has_x (mode_text 3 p) ≡ may_execute p
has_x-mode_text p h =
    same_bool_eq (has_x (mode_text 3 p)) (may_execute p)
      (all_below_sound 512 (λ p. same_bool (has_x (mode_text 3 p)) (may_execute p)) p x_table h)
