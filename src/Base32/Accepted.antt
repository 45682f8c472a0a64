-- ===== src/Base32/Accepted.antt =====
-- The bytes of the decoder of rfc4648.c where its result is true; `none` is the result false.
use umsftpd.Prelude.{
  ℕ, zero, suc, ◌+◌, ◌/◌, ◌≡◌, refl, ap, ◌∙◌, Bool, true, false, List, [], ◌∷◌, ◌++◌, Option, none,
  some, Bytes, length, drop, leb, if◌then◌else◌,
}
use umsftpd.Base32.{
  map_chars, next_bytes, emit, decode_group, go_on_with, decode_groups, decode_base32_multi,
}

-- The loop over the five bytes: the output, and whether the text is finished.
unfoldable pub try_emit : ℕ → List (Option ℕ) → Bytes → Option (Bytes × Bool)
try_emit bufsize [] out = some (out, false)
try_emit bufsize (none ∷ bytes) out = some (out, true)
try_emit bufsize (some b ∷ bytes) out =
    let rest = try_emit bufsize bytes (out ++ b ∷ []) in
    if leb bufsize (length out) then none else rest

-- One turn of the loop of `rfc4648_decode_base32_multi`.
unfoldable pub try_group : ℕ → Bytes → Bytes → Bytes → Option (Bytes × Bool)
try_group bufsize alphabet s out = elim (map_chars 8 alphabet s) [
  | none ↦ none
  | some m ↦ try_emit bufsize (next_bytes m) out
]

abbrev pub continue_with : Option (Bytes × Bool) → (Bytes → Option Bytes) → Option Bytes
continue_with none rest = none
continue_with (some (out, true)) rest = some out
continue_with (some (out, false)) rest = rest out

-- `rfc4648_decode_base32_multi`, whose loop runs on the groups that are left.
unfoldable pub try_groups : ℕ → ℕ → Bytes → Bytes → Bytes → Option Bytes
try_groups zero bufsize alphabet s out = none
try_groups (suc turns) bufsize alphabet s out =
    continue_with (try_group bufsize alphabet s out)
      (λ out'. try_groups turns bufsize alphabet (drop 8 s) out')

-- Every turn but the last takes eight characters.
unfoldable pub try_multi : ℕ → Bytes → Bytes → Option Bytes
try_multi bufsize s alphabet = try_groups (length s / 8 + 1) bufsize alphabet s []

-- The bytes of a group, and of the decoder, that are accepted.
abbrev pub accepted_group : Bytes × Option Bool → Option (Bytes × Bool)
accepted_group (out, none) = none
accepted_group (out, some finished) = some (out, finished)

abbrev pub accepted : Bytes × Bool → Option Bytes
accepted (out, true) = some out
accepted (out, false) = none

accepted-emit :
    (bufsize : ℕ) (bytes : List (Option ℕ)) (out : Bytes)
    → accepted_group (emit bufsize bytes out) ≡ try_emit bufsize bytes out
unfolding emit try_emit
accepted-emit bufsize [] out = refl
accepted-emit bufsize (none ∷ bytes) out = refl
accepted-emit bufsize (some b ∷ bytes) out =
    by_room (emit bufsize bytes (out ++ b ∷ [])) (try_emit bufsize bytes (out ++ b ∷ []))
      (leb bufsize (length out)) (accepted-emit bufsize bytes (out ++ b ∷ []))
  where
    by_room :
        (x : Bytes × Option Bool) (y : Option (Bytes × Bool)) (full : Bool)
        → accepted_group x ≡ y
        → accepted_group (if full then (out, none) else x) ≡ (if full then none else y)
    by_room x y true e = refl
    by_room x y false e = e

accepted-decode_group :
    (bufsize : ℕ) (alphabet s out : Bytes)
    → accepted_group (decode_group bufsize alphabet s out) ≡ try_group bufsize alphabet s out
unfolding decode_group try_group
accepted-decode_group bufsize alphabet s out = by_chars (map_chars 8 alphabet s)
  where
    by_chars :
        (m : Option (List (Option ℕ)))
        → accepted_group (elim m [ none ↦ (out, none) | some m ↦ emit bufsize (next_bytes m) out ])
          ≡ elim m [ none ↦ none | some m ↦ try_emit bufsize (next_bytes m) out ]
    by_chars none = refl
    by_chars (some m) = accepted-emit bufsize (next_bytes m) out

accepted-go_on_with :
    (r : Bytes × Option Bool) (k : Bytes → Bytes × Bool) (l : Bytes → Option Bytes)
    → ((out : Bytes) → accepted (k out) ≡ l out)
    → accepted (go_on_with r k) ≡ continue_with (accepted_group r) l
accepted-go_on_with (out, none) k l h = refl
accepted-go_on_with (out, some true) k l h = refl
accepted-go_on_with (out, some false) k l h = h out

accepted-decode_groups :
    (turns bufsize : ℕ) (alphabet s out : Bytes)
    → accepted (decode_groups turns bufsize alphabet s out)
      ≡ try_groups turns bufsize alphabet s out
unfolding decode_groups try_groups
accepted-decode_groups zero bufsize alphabet s out = refl
accepted-decode_groups (suc turns) bufsize alphabet s out =
    accepted-go_on_with (decode_group bufsize alphabet s out)
      (λ o. decode_groups turns bufsize alphabet (drop 8 s) o)
      (λ o. try_groups turns bufsize alphabet (drop 8 s) o)
      (λ o. accepted-decode_groups turns bufsize alphabet (drop 8 s) o)
    ∙ ap (λ r. continue_with r (λ o. try_groups turns bufsize alphabet (drop 8 s) o))
        (accepted-decode_group bufsize alphabet s out)

pub accepted-decode_base32_multi :
    (bufsize : ℕ) (s alphabet : Bytes)
    → accepted (decode_base32_multi bufsize s alphabet) ≡ try_multi bufsize s alphabet
unfolding decode_base32_multi try_multi
accepted-decode_base32_multi bufsize s alphabet =
    accepted-decode_groups (length s / 8 + 1) bufsize alphabet s []
