-- ===== src/Base32/Laws.antt =====
-- The decoder of rfc4648.c stays in its buffer and ends.
use mathlib.Core.Path.{subst}
use umsftpd.Prelude.{
  ℕ, zero, suc, ◌+◌, ◌*◌, ◌/◌, ◌≤◌, ◌<◌, ◌≡◌, refl, sym, ap, ◌∙◌, Bool, true, false, List, [], ◌∷◌,
  ◌++◌, Option, none, some, ◌||◌, ◌==◌, Bytes, take, Bool-cases, inl, inr, leb→le, length,
  length-append, drop, get_or, leb, if-cases, arith,
}
use umsftpd.Base32.{
  padding_char, index_of, nones, with_char, map_chars, two, next_bytes, emit, decode_group,
  go_on_with, decode_groups, decode_base32_multi,
}

leb-false : (a b : ℕ) → leb a b ≡ false → suc b ≤ a
leb-false a b e = ground arith

emit-Within :
    (bufsize : ℕ) (bytes : List (Option ℕ)) (out : Bytes)
    → length out ≤ bufsize
    → length (emit bufsize bytes out).0 ≤ bufsize
unfolding emit
emit-Within bufsize [] out h = h
emit-Within bufsize (none ∷ bytes) out h = h
emit-Within bufsize (some b ∷ bytes) out h =
    let ih =
      λ (g : length (out ++ b ∷ []) ≤ bufsize). emit-Within bufsize bytes (out ++ b ∷ []) g in
    if-cases (λ (r : Bytes × Option Bool). length r.0 ≤ bufsize) (leb bufsize (length out))
      {x = (out, none)} {y = emit bufsize bytes (out ++ b ∷ [])} (λ _. h)
      (λ e. ih (omega (arith, length-append out (b ∷ []), leb-false bufsize (length out) e)))

by_chars : ℕ → Bytes → Option (List (Option ℕ)) → Bytes × Option Bool
by_chars bufsize out m = elim m [ none ↦ (out, none) | some m ↦ emit bufsize (next_bytes m) out ]

by_chars-Within :
    (bufsize : ℕ) (out : Bytes) (m : Option (List (Option ℕ)))
    → length out ≤ bufsize
    → length (by_chars bufsize out m).0 ≤ bufsize
unfolding by_chars
by_chars-Within bufsize out none h = h
by_chars-Within bufsize out (some m) h = emit-Within bufsize (next_bytes m) out h

decode_group-Within :
    (bufsize : ℕ) (alphabet s out : Bytes)
    → length out ≤ bufsize
    → length (decode_group bufsize alphabet s out).0 ≤ bufsize
unfolding decode_group by_chars
decode_group-Within bufsize alphabet s out h =
    by_chars-Within bufsize out (map_chars 8 alphabet s) h

go_on-Within :
    (bufsize : ℕ) (r : Bytes × Option Bool) (rest : Bytes → Bytes × Bool)
    → length r.0 ≤ bufsize
    → ((out : Bytes) → length out ≤ bufsize → length (rest out).0 ≤ bufsize)
    → length (go_on_with r rest).0 ≤ bufsize
go_on-Within bufsize (out, none) rest h k = h
go_on-Within bufsize (out, some true) rest h k = h
go_on-Within bufsize (out, some false) rest h k = k out h

decode_groups-Within :
    (turns bufsize : ℕ) (alphabet s out : Bytes)
    → length out ≤ bufsize
    → length (decode_groups turns bufsize alphabet s out).0 ≤ bufsize
unfolding decode_groups
decode_groups-Within zero bufsize alphabet s out h = h
decode_groups-Within (suc turns) bufsize alphabet s out h =
    go_on-Within bufsize (decode_group bufsize alphabet s out)
      (λ out'. decode_groups turns bufsize alphabet (drop 8 s) out')
      (decode_group-Within bufsize alphabet s out h)
      (λ out' h'. decode_groups-Within turns bufsize alphabet (drop 8 s) out' h')

-- Whatever the text and the alphabet, and whatever the result, the decoder writes no more bytes than the
-- buffer holds.
pub decode_base32_multi-FitsIn :
    (bufsize : ℕ) (s alphabet : Bytes) → length (decode_base32_multi bufsize s alphabet).0 ≤ bufsize
unfolding decode_base32_multi
decode_base32_multi-FitsIn bufsize s alphabet =
    decode_groups-Within (length s / 8 + 1) bufsize alphabet s [] (omega arith)

-- A group that is finished or refused.
abbrev Ends : Bytes × Option Bool → Type 0
Ends (out, none) = Unit
Ends (out, some finished) = finished ≡ true

emit-Ends :
    (bufsize : ℕ) (bytes : List (Option ℕ)) (out : Bytes)
    → Ends (emit bufsize (bytes ++ none ∷ []) out)
unfolding emit
emit-Ends bufsize [] out = refl
emit-Ends bufsize (none ∷ bytes) out = refl
emit-Ends bufsize (some b ∷ bytes) out =
    let ih = emit-Ends bufsize bytes (out ++ b ∷ []) in
    if-cases Ends (leb bufsize (length out)) {x = (out, none)}
      {y = emit bufsize (bytes ++ none ∷ []) (out ++ b ∷ [])} (λ _. tt) (λ _. ih)

-- The last of the characters is missing.
abbrev LastMissing : ℕ → Option (List (Option ℕ)) → Type 0
LastMissing n none = Unit
LastMissing n (some m) = get_or m n none ≡ none

nones-none : (n i : ℕ) → get_or (nones n) i none ≡ none
nones-none zero i = refl
nones-none (suc n) zero = refl
nones-none (suc n) (suc i) = nones-none n i

with_char-LastMissing :
    (k : Option ℕ) (r : Option (List (Option ℕ))) (n : ℕ)
    → LastMissing n r
    → LastMissing (suc n) (with_char k r)
with_char-LastMissing none r n h = tt
with_char-LastMissing (some k) none n h = tt
with_char-LastMissing (some k) (some ks) n h = h

map_chars-LastMissing :
    (n : ℕ) (alphabet s : Bytes) → length s ≤ n → LastMissing n (map_chars (suc n) alphabet s)
unfolding map_chars
map_chars-LastMissing zero alphabet [] h = refl
map_chars-LastMissing zero alphabet (c ∷ s) h = absurd (omega arith)
map_chars-LastMissing (suc n) alphabet [] h = nones-none (suc (suc n)) (suc n)
map_chars-LastMissing (suc n) alphabet (c ∷ s) h =
    let ih = map_chars-LastMissing n alphabet s (omega arith) in
    let rest = map_chars (suc n) alphabet s in
    if-cases (LastMissing (suc n)) ((c == 0) || (c == padding_char))
      {x = some (nones (suc (suc n)))} {y = with_char (index_of alphabet c) rest}
      (λ _. nones-none (suc (suc n)) (suc n))
      (λ _. with_char-LastMissing (index_of alphabet c) rest n ih)

two-none : (a : Option ℕ) (p q : ℕ) → two a p none q ≡ none
two-none none p q = refl
two-none (some a) p q = refl

-- A group of fewer than eight characters is the last one.
decode_group-Ends :
    (bufsize : ℕ) (alphabet s out : Bytes)
    → length s ≤ 7
    → Ends (decode_group bufsize alphabet s out)
unfolding decode_group
decode_group-Ends bufsize alphabet s out h =
    by_chars (map_chars 8 alphabet s) (map_chars-LastMissing 7 alphabet s h)
  where
    by_chars :
        (m : Option (List (Option ℕ)))
        → LastMissing 7 m
        → Ends (elim m [ none ↦ (out, none) | some m ↦ emit bufsize (next_bytes m) out ])
    by_chars none k = tt
    by_chars (some m) k =
        let first = take 4 (next_bytes m) in
        let last : two (get_or m 6 none) 32 (get_or m 7 none) 1 ≡ none =
          ap (λ b. two (get_or m 6 none) 32 b 1) k ∙ two-none (get_or m 6 none) 32 1 in
        subst (λ b. Ends (emit bufsize (first ++ b ∷ []) out)) (sym last)
          (emit-Ends bufsize first out)

go_on-Ends :
    (r : Bytes × Option Bool) (f g : Bytes → Bytes × Bool)
    → Ends r
    → go_on_with r f ≡ go_on_with r g
go_on-Ends (out, none) f g h = refl
go_on-Ends (out, some true) f g h = refl
go_on-Ends (out, some false) f g h = cc

go_on_same :
    (r : Bytes × Option Bool) (f g : Bytes → Bytes × Bool)
    → ((out : Bytes) → f out ≡ g out)
    → go_on_with r f ≡ go_on_with r g
go_on_same (out, none) f g h = refl
go_on_same (out, some true) f g h = refl
go_on_same (out, some false) f g h = h out

length-drop : (n : ℕ) (s : Bytes) → n ≤ length s → length (drop n s) + n ≡ length s
length-drop zero s h = omega arith
length-drop (suc n) [] h = absurd (omega arith)
length-drop (suc n) (c ∷ s) h = omega (arith, length-drop n s (omega arith))

decode_groups_more :
    (n k bufsize : ℕ) (alphabet s out : Bytes)
    → length s < 8 * n
    → decode_groups (n + k) bufsize alphabet s out ≡ decode_groups n bufsize alphabet s out
unfolding decode_groups
decode_groups_more zero k bufsize alphabet s out h = absurd (omega arith)
decode_groups_more (suc n) k bufsize alphabet s out h =
    let more : suc n + k ≡ suc (n + k) = omega arith in
    let group = decode_group bufsize alphabet s out in
    let rest = λ (t : ℕ) (o : Bytes). decode_groups t bufsize alphabet (drop 8 s) o in
    let ih = λ (o : Bytes) (g : length (drop 8 s) < 8 * n).
      decode_groups_more n k bufsize alphabet (drop 8 s) o g in
    ap (λ t. decode_groups t bufsize alphabet s out) more ∙ elim (Bool-cases (leb (length s) 7)) [
      | inl e ↦
          go_on-Ends group (rest (n + k)) (rest n)
            (decode_group-Ends bufsize alphabet s out (leb→le (length s) 7 e))
      | inr e ↦ go_on_same group (rest (n + k)) (rest n) (λ o.
          ih o (
            omega (arith, h, length-drop 8 s (leb-false (length s) 7 e), leb-false (length s) 7 e)))
    ]

-- The decoder ends by itself: with more turns of its loop than one for each eight characters and one
-- for the rest, it gives the same result.
decode_base32_multi-turns :
    (k bufsize : ℕ) (s alphabet : Bytes)
    → decode_groups (length s / 8 + 1 + k) bufsize alphabet s []
      ≡ decode_base32_multi bufsize s alphabet
unfolding decode_base32_multi
decode_base32_multi-turns k bufsize s alphabet =
    decode_groups_more (length s / 8 + 1) k bufsize alphabet s [] (omega arith)
