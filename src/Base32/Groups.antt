-- ===== src/Base32/Groups.antt =====
-- One turn of `rfc4648_decode_base32_multi` in rfc4648.c on a group of the encoding.
use mathlib.Core.List.{map}
use umsftpd.Prelude.{
  ℕ, ◌+◌, ◌*◌, ◌/◌, ◌%◌, ◌≤◌, ◌<◌, ◌≡◌, refl, sym, ap, ◌∙◌, Bool, true, false, List, [], ◌∷◌, ◌++◌,
  Option, none, some, Bytes, length, length-append, leb, leb→le, if◌then◌else◌, if-cases, arith,
  append_assoc, append-nil,
}
use umsftpd.Base32.{nones, map_chars, next_bytes}
use umsftpd.Base32.Accepted.{try_emit, try_group, continue_with}
use umsftpd.Base32.Encode.{signs, padding, encode, fit}
use umsftpd.Base32.Signs.{IsAlphabet, IsDigits, count, map_chars-padding, map_chars-group}
use umsftpd.Base32.Joins.{first_byte, second_byte, third_byte, fourth_byte, fifth_byte}

-- What the loop over the bytes does with the bytes before its end.
abbrev pub emitted : ℕ → List (Option ℕ) → Bytes → Option (Bytes × Bool)
emitted bufsize rest out = if leb (length out) bufsize then try_emit bufsize rest out else none

module _ (bufsize : ℕ) (rest : List (Option ℕ)) where
  try_emit-full : (out : Bytes) → leb (length out) bufsize ≡ false → emitted bufsize rest out ≡ none
  try_emit-full out h = ap (λ (b : Bool). if b then try_emit bufsize rest out else none) h

  try_emit-map :
      (bytes out : Bytes)
      → length out ≤ bufsize
      → try_emit bufsize (map some bytes ++ rest) out ≡ emitted bufsize rest (out ++ bytes)
  unfolding try_emit
  try_emit-map [] out h =
      let fits : leb (length out) bufsize ≡ true = ground arith in
      rw (append-nil out)
        (sym (ap (λ (b : Bool). if b then try_emit bufsize rest out else none) fits))
  try_emit-map (b ∷ bytes) out h =
      let ih = try_emit-map bytes (out ++ b ∷ []) in
      let split = append_assoc out (b ∷ []) bytes in
      if-cases (λ (o : Option (Bytes × Bool)). o ≡ emitted bufsize rest (out ++ b ∷ bytes))
        (leb bufsize (length out)) {x = none}
        {y = try_emit bufsize (map some bytes ++ rest) (out ++ b ∷ [])}
        (λ e. sym (
          try_emit-full (out ++ b ∷ bytes)
            (ground (arith, leb→le bufsize (length out) e, length-append out (b ∷ bytes)))))
        (λ e. ih (ground (arith, length-append out (b ∷ []))) ∙ ap (emitted bufsize rest) split)

by_chars : ℕ → Bytes → Option (List (Option ℕ)) → Option (Bytes × Bool)
by_chars bufsize out m = elim m [ none ↦ none | some m ↦ try_emit bufsize (next_bytes m) out ]

-- A group of digits and padding gives the bytes that they stand for.
pub try_group-signs :
    (bufsize n : ℕ) (alphabet s : Bytes) (digits bytes : List ℕ) (rest : List (Option ℕ))
    (out : Bytes)
    → IsAlphabet alphabet
    → IsDigits digits
    → count digits n ≡ 8
    → map_chars n alphabet s ≡ some (nones n)
    → next_bytes (map some digits ++ nones n) ≡ map some bytes ++ rest
    → length out ≤ bufsize
    → try_group bufsize alphabet (signs alphabet digits ++ s) out
      ≡ emitted bufsize rest (out ++ bytes)
unfolding try_group by_chars
try_group-signs bufsize n alphabet s digits bytes rest out a h c k e fits =
    let chars = ap (λ t. map_chars t alphabet (signs alphabet digits ++ s)) (sym c) in
    ap (by_chars bufsize out) (chars ∙ map_chars-group alphabet digits n s a h k)
    ∙ ap (λ (m : List (Option ℕ)). try_emit bufsize m out) e
    ∙ try_emit-map bufsize rest bytes out fits

next : {x y : ℕ} {xs ys : List (Option ℕ)} → x ≡ y → xs ≡ ys → some x ∷ xs ≡ some y ∷ ys
next p q = cc

-- The last group: the text is finished after its bytes.
pub ended :
    (bufsize : ℕ) (rest : List (Option ℕ)) (out : Bytes) (k : Bytes → Option Bytes)
    → continue_with (emitted bufsize (none ∷ rest) out) k ≡ fit bufsize out
unfolding try_emit
ended bufsize rest out k = by_room (leb (length out) bufsize)
  where
    by_room :
        (b : Bool)
        → continue_with (if b then some (out, true) else none) k ≡ (if b then some out else none)
    by_room true = refl
    by_room false = refl

-- A full group: the text goes on, unless the buffer is full.
pub continued :
    (bufsize : ℕ) (out bytes : Bytes) (k : Bytes → Option Bytes)
    → (length out ≤ bufsize → k out ≡ fit bufsize (out ++ bytes))
    → continue_with (emitted bufsize [] out) k ≡ fit bufsize (out ++ bytes)
unfolding try_emit
continued bufsize out bytes k h =
    if-cases (λ (o : Option (Bytes × Bool)). continue_with o k ≡ fit bufsize (out ++ bytes))
      (leb (length out) bufsize) {x = some (out, false)} {y = none}
      (λ e. h (leb→le (length out) bufsize e))
      (λ e. sym (ap (λ (b : Bool). if b then some (out ++ bytes) else none) (too_long e)))
  where
    too_long : leb (length out) bufsize ≡ false → leb (length (out ++ bytes)) bufsize ≡ false
    too_long e = ground (arith, length-append out bytes)

module _ (bufsize : ℕ) (padded : Bool) (alphabet : Bytes) (signed : IsAlphabet alphabet) where
  pub group_1 :
      (a : ℕ) (out : Bytes) (k : Bytes → Option Bytes)
      → a < 256
      → length out ≤ bufsize
      → continue_with (try_group bufsize alphabet (encode padded alphabet (a ∷ [])) out) k
        ≡ fit bufsize (out ++ a ∷ [])
  group_1 a out k h fits =
      let digits = a / 8 ∷ a % 8 * 4 ∷ [] in
      let m = map some digits ++ nones 6 in
      let bytes : next_bytes m ≡ some a ∷ none ∷ none ∷ none ∷ none ∷ [] =
        next (first_byte a (a / 8) (a % 8 * 4) h refl (omega arith)) refl in
      ap (λ o. continue_with o k)
        (try_group-signs bufsize 6 alphabet (padding padded 6) digits (a ∷ [])
          (none ∷ none ∷ none ∷ none ∷ []) out signed (omega arith, (omega arith, tt)) refl
          (map_chars-padding 6 5 padded alphabet) bytes fits)
      ∙ ended bufsize (none ∷ none ∷ none ∷ []) (out ++ a ∷ []) k

  pub group_2 :
      (a b : ℕ) (out : Bytes) (k : Bytes → Option Bytes)
      → a < 256
      → b < 256
      → length out ≤ bufsize
      → continue_with (try_group bufsize alphabet (encode padded alphabet (a ∷ b ∷ [])) out) k
        ≡ fit bufsize (out ++ a ∷ b ∷ [])
  group_2 a b out k ha hb fits =
      let digits = a / 8 ∷ (a % 8 * 4 + b / 64) ∷ b / 2 % 32 ∷ b % 2 * 16 ∷ [] in
      let bytes : next_bytes (map some digits ++ nones 4)
          ≡ map some (a ∷ b ∷ []) ++ none ∷ none ∷ none ∷ [] =
        next (first_byte a (a / 8) (a % 8 * 4 + b / 64) ha refl (omega arith)) (
          next
            (second_byte b (a % 8 * 4 + b / 64) (b / 2 % 32) (b % 2 * 16) hb (omega arith) refl
              (omega arith))
            refl) in
      ap (λ o. continue_with o k)
        (try_group-signs bufsize 4 alphabet (padding padded 4) digits (a ∷ b ∷ [])
          (none ∷ none ∷ none ∷ []) out signed
          (omega arith, (omega arith, (omega arith, (omega arith, tt)))) refl
          (map_chars-padding 4 3 padded alphabet) bytes fits)
      ∙ ended bufsize (none ∷ none ∷ []) (out ++ a ∷ b ∷ []) k

  pub group_3 :
      (a b c : ℕ) (out : Bytes) (k : Bytes → Option Bytes)
      → a < 256
      → b < 256
      → c < 256
      → length out ≤ bufsize
      → continue_with (try_group bufsize alphabet (encode padded alphabet (a ∷ b ∷ c ∷ [])) out) k
        ≡ fit bufsize (out ++ a ∷ b ∷ c ∷ [])
  group_3 a b c out k ha hb hc fits =
      let digits =
        a / 8 ∷ (a % 8 * 4 + b / 64) ∷ b / 2 % 32 ∷ (b % 2 * 16 + c / 16) ∷ c % 16 * 2 ∷ [] in
      let bytes : next_bytes (map some digits ++ nones 3)
          ≡ map some (a ∷ b ∷ c ∷ []) ++ none ∷ none ∷ [] =
        next (first_byte a (a / 8) (a % 8 * 4 + b / 64) ha refl (omega arith)) (
          next
            (second_byte b (a % 8 * 4 + b / 64) (b / 2 % 32) (b % 2 * 16 + c / 16) hb (omega arith)
              refl (omega arith))
            (next (third_byte c (b % 2 * 16 + c / 16) (c % 16 * 2) hc (omega arith) (omega arith))
              refl)) in
      ap (λ o. continue_with o k)
        (try_group-signs bufsize 3 alphabet (padding padded 3) digits (a ∷ b ∷ c ∷ [])
          (none ∷ none ∷ []) out signed
          (omega arith, (omega arith, (omega arith, (omega arith, (omega arith, tt))))) refl
          (map_chars-padding 3 2 padded alphabet) bytes fits)
      ∙ ended bufsize (none ∷ []) (out ++ a ∷ b ∷ c ∷ []) k

  pub group_4 :
      (a b c d : ℕ) (out : Bytes) (k : Bytes → Option Bytes)
      → a < 256
      → b < 256
      → c < 256
      → d < 256
      → length out ≤ bufsize
      → continue_with
          (try_group bufsize alphabet (encode padded alphabet (a ∷ b ∷ c ∷ d ∷ [])) out)
          k
        ≡ fit bufsize (out ++ a ∷ b ∷ c ∷ d ∷ [])
  group_4 a b c d out k ha hb hc hd fits =
      let digits =
        a / 8
        ∷ (a % 8 * 4 + b / 64)
        ∷ b / 2 % 32
        ∷ (b % 2 * 16 + c / 16)
        ∷ (c % 16 * 2 + d / 128)
        ∷ d / 4 % 32
        ∷ d % 4 * 8
        ∷ [] in
      let bytes : next_bytes (map some digits ++ nones 1)
          ≡ map some (a ∷ b ∷ c ∷ d ∷ []) ++ none ∷ [] =
        next (first_byte a (a / 8) (a % 8 * 4 + b / 64) ha refl (omega arith)) (
          next
            (second_byte b (a % 8 * 4 + b / 64) (b / 2 % 32) (b % 2 * 16 + c / 16) hb (omega arith)
              refl (omega arith))
            (next
              (third_byte c (b % 2 * 16 + c / 16) (c % 16 * 2 + d / 128) hc (omega arith)
                (omega arith))
              (next
                (fourth_byte d (c % 16 * 2 + d / 128) (d / 4 % 32) (d % 4 * 8) hd (omega arith) refl
                  (omega arith))
                refl))) in
      ap (λ o. continue_with o k)
        (try_group-signs bufsize 1 alphabet (padding padded 1) digits (a ∷ b ∷ c ∷ d ∷ [])
          (none ∷ []) out signed
          (
            omega arith,
            (
              omega arith,
              (omega arith, (omega arith, (omega arith, (omega arith, (omega arith, tt))))),
            ),
          )
          refl (map_chars-padding 1 0 padded alphabet) bytes fits)
      ∙ ended bufsize [] (out ++ a ∷ b ∷ c ∷ d ∷ []) k

  pub group_5 :
      (a b c d e : ℕ) (bytes out : Bytes)
      → a < 256
      → b < 256
      → c < 256
      → d < 256
      → e < 256
      → length out ≤ bufsize
      → try_group bufsize alphabet (encode padded alphabet (a ∷ b ∷ c ∷ d ∷ e ∷ bytes)) out
        ≡ emitted bufsize [] (out ++ a ∷ b ∷ c ∷ d ∷ e ∷ [])
  unfolding map_chars
  group_5 a b c d e bytes out ha hb hc hd he fits =
      let digits =
        a / 8
        ∷ (a % 8 * 4 + b / 64)
        ∷ b / 2 % 32
        ∷ (b % 2 * 16 + c / 16)
        ∷ (c % 16 * 2 + d / 128)
        ∷ d / 4 % 32
        ∷ (d % 4 * 8 + e / 32)
        ∷ e % 32
        ∷ [] in
      let joined : next_bytes (map some digits ++ []) ≡ map some (a ∷ b ∷ c ∷ d ∷ e ∷ []) ++ [] =
        next (first_byte a (a / 8) (a % 8 * 4 + b / 64) ha refl (omega arith)) (
          next
            (second_byte b (a % 8 * 4 + b / 64) (b / 2 % 32) (b % 2 * 16 + c / 16) hb (omega arith)
              refl (omega arith))
            (next
              (third_byte c (b % 2 * 16 + c / 16) (c % 16 * 2 + d / 128) hc (omega arith)
                (omega arith))
              (next
                (fourth_byte d (c % 16 * 2 + d / 128) (d / 4 % 32) (d % 4 * 8 + e / 32) hd
                  (omega arith) refl (omega arith))
                (next (fifth_byte e (d % 4 * 8 + e / 32) (e % 32) he (omega arith) refl) refl)))) in
      try_group-signs bufsize 0 alphabet (encode padded alphabet bytes) digits
        (a ∷ b ∷ c ∷ d ∷ e ∷ []) [] out signed
        (
          omega arith,
          (
            omega arith,
            (
              omega arith,
              (omega arith, (omega arith, (omega arith, (omega arith, (omega arith, tt))))),
            ),
          ),
        )
        refl refl joined fits
