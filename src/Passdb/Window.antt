-- ===== src/Passdb/Window.antt =====
-- The search of passdb.c for an offset in the window whose code is the one provided.
use mathlib.Core.Path.{subst}
use native.Mathlib.Nat.{eq-or-lt_of_le}
use umsftpd.Prelude.{
  ℕ, zero, suc, ◌+◌, ◌-◌, ◌^◌, ◌≤◌, ◌<◌, ◌≡◌, refl, sym, ap, ◌∙◌, Bool, true, false, ◌⊎◌, inl, inr,
  Outcome, done, undefined, ◌>>=◌, ◌==◌, if◌then◌else◌, arith,
}
use umsftpd.Prelude.Int.{ℤ, pos, negsuc, abs, negate_pos}
use umsftpd.Passdb.{try_offset, try_offsets, validate_window}

-- The search ends, and it tells whether one of the offsets succeeds.
pub record Finds (attempt : ℤ → Outcome Bool) (Among : ℤ → Type 0) (search : Outcome Bool)
    : Type 0 where
  pub found : Bool
  pub ends : search ≡ done found
  pub sound : found ≡ true → (o : ℤ) × Among o × (attempt o ≡ done true)
  pub complete : (o : ℤ) → Among o → attempt o ≡ done true → found ≡ true

-- The offsets of `rounds` turns from `offset` on.
abbrev pub Turns : ℕ → ℕ → ℤ → Type 0
Turns rounds offset o = (offset ≤ abs o) × (abs o < offset + rounds)

-- The offsets at most `size` slices away.
abbrev pub Window : ℕ → ℤ → Type 0
Window size o = abs o ≤ size

module _ (attempt : ℤ → Outcome Bool) where
  -- Every attempt at one of the offsets comes to an end.
  abbrev pub Total : (ℤ → Type 0) → Type 0
  Total Among = (o : ℤ) → Among o → (b : Bool) × (attempt o ≡ done b)

  turn_earlier :
      (k : ℕ) (rest : Outcome Bool)
      → attempt (negsuc k) ≡ done true
      → try_offset attempt (suc k) rest ≡ done true
  turn_earlier k rest e = rw (negate_pos k, e) refl

  turn_later :
      (k : ℕ) (rest : Outcome Bool)
      → attempt (negsuc k) ≡ done false
      → attempt (pos (suc k)) ≡ done true
      → try_offset attempt (suc k) rest ≡ done true
  turn_later k rest e l = rw (negate_pos k, e, l) refl

  turn_neither :
      (k : ℕ) (rest : Outcome Bool)
      → suc k < 2 ^ 31 - 1
      → attempt (negsuc k) ≡ done false
      → attempt (pos (suc k)) ≡ done false
      → try_offset attempt (suc k) rest ≡ rest
  turn_neither k rest h e l = rw (negate_pos k, e, l) (below (suc k) h)
    where
      below : (n : ℕ) → n < 2 ^ 31 - 1 → (if n == 2 ^ 31 - 1 then undefined else rest) ≡ rest
      below n h = ground arith

  -- An offset of these turns is one of the first turn or of the turns after it.
  first_or_later :
      (rounds k : ℕ) (o : ℤ)
      → Turns (suc rounds) (suc k) o
      → (o ≡ negsuc k) ⊎ (o ≡ pos (suc k)) ⊎ Turns rounds (suc k + 1) o
  first_or_later rounds k (pos n) h = elim (eq-or-lt_of_le h.0) [
    | inl first ↦ inr (inl (ap pos (sym first)))
    | inr later ↦ inr (inr (omega arith, omega arith))
  ]
  first_or_later rounds k (negsuc n) h = elim (eq-or-lt_of_le h.0) [
    | inl first ↦ inl (ap negsuc (omega arith))
    | inr later ↦ inr (inr (omega arith, omega arith))
  ]

  -- A search that ends at once with a success finds one.
  finds_here :
      (Among : ℤ → Type 0) (search : Outcome Bool) (o : ℤ)
      → search ≡ done true
      → Among o
      → attempt o ≡ done true
      → Finds attempt Among search
  finds_here Among search o e inside success = record {
    found = true;
    ends = e;
    sound = λ _. (o, inside, success);
    complete = λ _ _ _. refl;
  }

  done-true≢done-false : (o : ℤ) → attempt o ≡ done false → attempt o ≡ done true → false ≡ true
  done-true≢done-false o e f = ap (value false) (sym e ∙ f)
    where
      value : Bool → Outcome Bool → Bool
      value d (done b) = b
      value d undefined = d

  -- A search whose first turn fails finds what the other turns find.
  finds_later :
      (rounds k : ℕ) (search rest : Outcome Bool)
      → search ≡ rest
      → attempt (negsuc k) ≡ done false
      → attempt (pos (suc k)) ≡ done false
      → Finds attempt (Turns rounds (suc k + 1)) rest
      → Finds attempt (Turns (suc rounds) (suc k)) search
  finds_later rounds k search rest same e l later = record {
    found = later.found;
    ends = same ∙ later.ends;
    sound = λ f. widen (later.sound f);
    complete = λ o inside success. placed o success (first_or_later rounds k o inside);
  }
    where
      widen :
          ((o : ℤ) × Turns rounds (suc k + 1) o × (attempt o ≡ done true))
          → (o : ℤ) × Turns (suc rounds) (suc k) o × (attempt o ≡ done true)
      widen (o, inside, success) = (o, (omega arith, omega arith), success)

      refuse : (found : Bool) → false ≡ true → found ≡ true
      refuse found q = cc

      placed :
          (o : ℤ)
          → attempt o ≡ done true
          → (o ≡ negsuc k) ⊎ (o ≡ pos (suc k)) ⊎ Turns rounds (suc k + 1) o
          → later.found ≡ true
      placed o success (inl p) =
          refuse later.found
            (done-true≢done-false (negsuc k) e (subst (λ x. attempt x ≡ done true) p success))
      placed o success (inr (inl p)) =
          refuse later.found
            (done-true≢done-false (pos (suc k)) l (subst (λ x. attempt x ≡ done true) p success))
      placed o success (inr (inr inside)) = later.complete o inside success

  -- One turn with what the others find.
  finds_turn :
      (rounds k : ℕ) (rest : Outcome Bool)
      → suc k < 2 ^ 31 - 1
      → (e l : Bool) → attempt (negsuc k) ≡ done e
      → attempt (pos (suc k)) ≡ done l
      → Finds attempt (Turns rounds (suc k + 1)) rest
      → Finds attempt (Turns (suc rounds) (suc k)) (try_offset attempt (suc k) rest)
  finds_turn rounds k rest h true l pe pl later =
      finds_here (Turns (suc rounds) (suc k)) (try_offset attempt (suc k) rest) (negsuc k)
        (turn_earlier k rest pe) (omega arith, omega arith) pe
  finds_turn rounds k rest h false true pe pl later =
      finds_here (Turns (suc rounds) (suc k)) (try_offset attempt (suc k) rest) (pos (suc k))
        (turn_later k rest pe pl) (omega arith, omega arith) pl
  finds_turn rounds k rest h false false pe pl later =
      finds_later rounds k (try_offset attempt (suc k) rest) rest (turn_neither k rest h pe pl) pe
        pl later

  finds_offsets :
      (rounds k : ℕ)
      → suc k + rounds ≤ 2 ^ 31 - 1
      → Total (Turns rounds (suc k))
      → Finds attempt (Turns rounds (suc k)) (try_offsets attempt rounds (suc k))
  unfolding try_offsets
  finds_offsets zero k h total = record {
    found = false;
    ends = refl;
    sound = λ q. cc;
    complete = λ o inside. absurd (omega (arith, inside.0, inside.1));
  }
  finds_offsets (suc rounds) k h total =
      let earlier = total (negsuc k) (omega arith, omega arith) in
      let later = total (pos (suc k)) (omega arith, omega arith) in
      finds_turn rounds k (try_offsets attempt rounds (suc k + 1)) (omega arith) earlier.0 later.0
        earlier.1 later.1
        (subst (λ j. Finds attempt (Turns rounds j) (try_offsets attempt rounds j)) (next k)
          (finds_offsets rounds (suc k) (omega arith)
            (λ o inside. total o (omega arith, omega arith))))
    where
      next : (k : ℕ) → suc (suc k) ≡ suc k + 1
      next k = omega arith

  zero_or_turn : (size : ℕ) (o : ℤ) → Window size o → (o ≡ pos 0) ⊎ Turns size 1 o
  zero_or_turn size (pos zero) h = inl refl
  zero_or_turn size (pos (suc n)) h = inr (omega arith, omega arith)
  zero_or_turn size (negsuc n) h = inr (omega arith, omega arith)

  finds_window :
      (size : ℕ) (now : Bool) (offsets : Outcome Bool)
      → attempt (pos 0) ≡ done now
      → Finds attempt (Turns size 1) offsets
      → Finds attempt (Window size) (attempt (pos 0) >>= (λ b. if b then done true else offsets))
  finds_window size true offsets e later =
      finds_here (Window size) (attempt (pos 0) >>= (λ b. if b then done true else offsets)) (pos 0)
        (rw e refl) (omega arith) e
  finds_window size false offsets e later = record {
    found = later.found;
    ends = rw e later.ends;
    sound = λ f. narrow (later.sound f);
    complete = λ o inside success. placed o success (zero_or_turn size o inside);
  }
    where
      narrow :
          ((o : ℤ) × Turns size 1 o × (attempt o ≡ done true))
          → (o : ℤ) × Window size o × (attempt o ≡ done true)
      narrow (o, inside, success) = (o, omega arith, success)

      refuse : (found : Bool) → false ≡ true → found ≡ true
      refuse found q = cc

      placed : (o : ℤ) → attempt o ≡ done true → (o ≡ pos 0) ⊎ Turns size 1 o → later.found ≡ true
      placed o success (inl p) =
          refuse later.found
            (done-true≢done-false (pos 0) e (subst (λ x. attempt x ≡ done true) p success))
      placed o success (inr inside) = later.complete o inside success

  -- The search finds out whether an offset of the window succeeds.
  pub validate_window-Finds :
      (size : ℕ)
      → size < 2 ^ 31 - 1
      → Total (Window size)
      → Finds attempt (Window size) (validate_window attempt size)
  unfolding validate_window
  validate_window-Finds size h total =
      let now = total (pos 0) (omega arith) in
      finds_window size now.0 (try_offsets attempt size 1) now.1
        (finds_offsets size 0 (omega arith) (λ o inside. total o (omega arith)))
