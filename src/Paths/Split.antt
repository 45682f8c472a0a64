-- ===== src/Paths/Split.antt =====
-- `path_split` (strings.c): which prefixes of a path its callback sees, and in which order.
use mathlib.Core.List.{cons-ne-nil}
use mathlib.Core.Path.{fun_ext}
use umsftpd.Prelude.{
  ℕ, Bool, true, false, ◌≢◌, ◌≡◌, refl, ap, ◌∙◌, List, [], ◌∷◌, ◌++◌, append_assoc, append-nil,
  Bytes, All, arith, ◌==◌,
}
use umsftpd.Paths.{slash, is_nil, visit, split_from, path_split}
use umsftpd.Paths.Names.{Lacks, IsName, render, show}

-- The prefixes below the prefix `pre`, the last one marked as the full path.
abbrev pub branch : Bytes → Bytes → List Bytes → List (Bytes × Bool)
branch pre c [] = (pre ++ slash ∷ c, true) ∷ []
branch pre c (d ∷ cs) = (pre ++ slash ∷ c, false) ∷ branch (pre ++ slash ∷ c) d cs

-- The prefixes of the path of a list of names, from the root on.
abbrev pub prefixes : List Bytes → List (Bytes × Bool)
prefixes [] = (slash ∷ [], true) ∷ []
prefixes (c ∷ cs) = (slash ∷ [], false) ∷ branch [] c cs

is_nil-append : (c r : Bytes) → is_nil (c ++ slash ∷ r) ≡ false
is_nil-append [] r = refl
is_nil-append (b ∷ c) r = refl

not_slash : (b : ℕ) → b ≢ slash → (b == slash) ≡ false
not_slash b ne = ground arith

is_nil-name : (c r : Bytes) → c ≢ [] → is_nil (c ++ r) ≡ false
is_nil-name [] r ne = absurd (ne refl)
is_nil-name (b ∷ c) r ne = refl

append-ne-nil : (x : Bytes) (b : ℕ) (y : Bytes) → x ++ b ∷ y ≢ []
append-ne-nil [] b y = cons-ne-nil b y
append-ne-nil (a ∷ x) b y = cons-ne-nil a (x ++ b ∷ y)

module _ {ℓ} {S : Type ℓ} (callback : Bytes → Bool → S → S × Bool) where
  -- Calls until one says to stop.
  unfoldable pub run_until : S → List (Bytes × Bool) → S
  run_until ctx [] = ctx
  run_until ctx ((path, full) ∷ rest) =
      let (ctx', do_continue) = callback path full ctx in
      elim do_continue [ true ↦ run_until ctx' rest | false ↦ ctx' ]

  step_inside :
      (pre : Bytes) (b : ℕ) (r : Bytes) (ctx : S)
      → b ≢ slash
      → is_nil r ≡ false
      → split_from callback pre (b ∷ r) ctx ≡ split_from callback (pre ++ b ∷ []) r ctx
  unfolding split_from visit
  step_inside pre b r ctx ne more = ground (arith, not_slash b ne)

  -- One call, and the rest of the walk if it says to go on.
  abbrev after : Bytes → Bool → S → (S → S) → S
  after path full ctx rest =
      let (ctx', do_continue) = callback path full ctx in
      elim do_continue [ true ↦ rest ctx' | false ↦ ctx' ]

  step_slash :
      (pre r : Bytes) (full : Bool) (ctx : S)
      → pre ≢ []
      → is_nil r ≡ full
      → split_from callback pre (slash ∷ r) ctx
        ≡ after pre full ctx (λ ctx'. split_from callback (pre ++ slash ∷ []) r ctx')
  unfolding split_from visit
  step_slash [] r full ctx ne e = absurd (ne refl)
  step_slash (a ∷ pre) r full ctx ne e =
      ap (λ f. after (a ∷ pre) f ctx (λ ctx'. split_from callback (a ∷ (pre ++ slash ∷ [])) r ctx'))
        e

  step_root :
      (r : Bytes) (full : Bool) (ctx : S)
      → is_nil r ≡ full
      → split_from callback [] (slash ∷ r) ctx
        ≡ after (slash ∷ []) full ctx (λ ctx'. split_from callback (slash ∷ []) r ctx')
  unfolding split_from visit
  step_root r full ctx e =
      ap (λ f. after (slash ∷ []) f ctx (λ ctx'. split_from callback (slash ∷ []) r ctx')) e

  run_next :
      (path : Bytes) (full : Bool) (ctx : S) (rest : List (Bytes × Bool))
      → after path full ctx (λ ctx'. run_until ctx' rest) ≡ run_until ctx ((path, full) ∷ rest)
  unfolding run_until
  run_next path full ctx rest = refl

  last_call :
      (path : Bytes) (ctx : S) → (callback path true ctx).0 ≡ run_until ctx ((path, true) ∷ [])
  unfolding run_until
  last_call path ctx = ground arith

  -- The bytes of a name call nothing.
  skip_name :
      (c pre r : Bytes) (ctx : S)
      → Lacks c
      → split_from callback pre (c ++ slash ∷ r) ctx
        ≡ split_from callback (pre ++ c) (slash ∷ r) ctx
  skip_name [] pre r ctx h = rw append-nil
  skip_name (b ∷ c) pre r ctx h =
      step_inside pre b (c ++ slash ∷ r) ctx h.0 (is_nil-append c r)
      ∙ skip_name c (pre ++ b ∷ []) r ctx h.1
      ∙ ap (λ q. split_from callback q (slash ∷ r) ctx) (append_assoc pre (b ∷ []) c)

  last_byte :
      (b : ℕ) (pre : Bytes) (ctx : S)
      → b ≢ slash
      → split_from callback pre (b ∷ []) ctx ≡ (callback (pre ++ b ∷ []) true ctx).0
  unfolding split_from visit
  last_byte b pre ctx ne = ground (arith, not_slash b ne)

  last_name :
      (b : ℕ) (c pre : Bytes) (ctx : S)
      → Lacks (b ∷ c)
      → split_from callback pre (b ∷ c) ctx ≡ (callback (pre ++ b ∷ c) true ctx).0
  last_name b [] pre ctx h = last_byte b pre ctx h.0
  last_name b (d ∷ c) pre ctx h =
      step_inside pre b (d ∷ c) ctx h.0 refl
      ∙ last_name d c (pre ++ b ∷ []) ctx h.1
      ∙ ap (λ q. (callback q true ctx).0) (append_assoc pre (b ∷ []) (d ∷ c))

  -- What is left of the path behind a slash.
  split-branch :
      (pre c : Bytes) (cs : List Bytes) (ctx : S)
      → IsName c
      → All IsName cs
      → split_from callback (pre ++ slash ∷ []) (c ++ render cs) ctx
        ≡ run_until ctx (branch pre c cs)
  split-branch pre [] cs ctx h hs = absurd (h.0 refl)
  split-branch pre (b ∷ c) [] ctx h hs = rw append-nil (
      last_name b c (pre ++ slash ∷ []) ctx h.1
      ∙ ap (λ q. (callback q true ctx).0) (append_assoc pre (slash ∷ []) (b ∷ c))
      ∙ last_call (pre ++ slash ∷ b ∷ c) ctx)
  split-branch pre (b ∷ c) (d ∷ cs) ctx h hs =
      let q = pre ++ slash ∷ b ∷ c in
      skip_name (b ∷ c) (pre ++ slash ∷ []) (d ++ render cs) ctx h.1
      ∙ ap (λ p. split_from callback p (slash ∷ (d ++ render cs)) ctx)
          (append_assoc pre (slash ∷ []) (b ∷ c))
      ∙ step_slash q (d ++ render cs) false ctx (append-ne-nil pre slash (b ∷ c))
          (is_nil-name d (render cs) hs.0.0)
      ∙ ap (λ k. after q false ctx k) (fun_ext (λ ctx'. split-branch q d cs ctx' hs.0 hs.1))
      ∙ run_next q false ctx (branch q d cs)

  -- On the path of a list of names the callback sees the root and then each longer prefix, the last
  -- one marked as the full path, until it says to stop.
  pub path_split-show :
      (cs : List Bytes) (ctx : S)
      → All IsName cs
      → path_split callback (show cs) ctx ≡ run_until ctx (prefixes cs)
  unfolding path_split
  path_split-show [] ctx h = unfold split_from visit run_until in refl
  path_split-show (c ∷ cs) ctx h =
      step_root (c ++ render cs) false ctx (is_nil-name c (render cs) h.0.0)
      ∙ ap (λ k. after (slash ∷ []) false ctx k)
          (fun_ext (λ ctx'. split-branch [] c cs ctx' h.0 h.1))
      ∙ run_next (slash ∷ []) false ctx (branch [] c cs)
