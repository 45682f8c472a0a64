-- ===== src/Jsonconfig/Laws.antt =====
-- What a parser of jsonconfig.c accepts, and the loop over the members of an object.
use mathlib.Core.List.{foldl}
use umsftpd.Prelude.{
  ◌≡◌, refl, ap, ◌∙◌, Bool, true, false, not, [], ◌∷◌, Bytes, All, if◌then◌else◌, ◌⊎◌, inl, inr,
}
use umsftpd.Jsonconfig.{Json, BaseConfig, ParseCtx, fail, store, each_member}
use umsftpd.Jsonconfig.Shape.{Members}

pub true≢false : {b : Bool} → b ≡ true → b ≡ false → ⊥
true≢false p q = cc

-- A parser accepts what has a property, and then leaves a configuration.
abbrev pub Parses : Type 0 → BaseConfig → ParseCtx × Bool → Type 0
Parses P base result =
    (P × (result.1 ≡ true) × (result.0.base ≡ base)) ⊎ ((P → ⊥) × (result.1 ≡ false))

-- A value whose type is tested first.
pub typed :
    (P : Type 0) (base : BaseConfig) (ctx : ParseCtx) (text : Bytes) (rest : ParseCtx × Bool)
    (is_type : Bool)
    → Parses P base rest
    → Parses ((is_type ≡ true) × P) base (if not is_type then fail ctx text else rest)
unfolding fail
typed P base ctx text rest true (inl (p, ok, same)) = inl ((refl, p), ok, same)
typed P base ctx text rest true (inr (p, bad)) = inr (λ q. p q.1, bad)
typed P base ctx text rest false h = inr (λ q. true≢false q.0 refl, refl)

pub store-Parses :
    (ctx : ParseCtx) (key kind : Bytes) (base : BaseConfig) (right_type : Bool)
    → Parses (right_type ≡ true) base (store ctx key kind base right_type)
unfolding fail
store-Parses ctx key kind base true = inl (refl, refl, refl)
store-Parses ctx key kind base false = inr (λ q. true≢false q refl, refl)

module _ (json : Json) where
  -- A loop over members accepts those that are all acceptable, and leaves what they make of it in turn.
  pub each_member-Parses :
      (P : Bytes → json.Object → Type 0) (effect : BaseConfig → Bytes → json.Object → BaseConfig)
      (parser : ParseCtx → Bytes → json.Object → ParseCtx × Bool)
      → ((ctx : ParseCtx) (key : Bytes) (value : json.Object)
          → Parses (P key value) (effect ctx.base key value) (parser ctx key value))
      → (ctx : ParseCtx) (members : Members json)
      → Parses
          (All (λ (m : Bytes × json.Object). P m.0 m.1) members)
          (foldl (λ base (m : Bytes × json.Object). effect base m.0 m.1) ctx.base members)
          (each_member json parser ctx members)
  unfolding each_member
  each_member-Parses P effect parser one ctx [] = inl (tt, refl, refl)
  each_member-Parses P effect parser one ctx ((key, value) ∷ members) =
      first (parser ctx key value) (each_member json parser (parser ctx key value).0 members)
        (one ctx key value)
        (each_member-Parses P effect parser one (parser ctx key value).0 members)
    where
      after : BaseConfig → BaseConfig
      after base = foldl (λ base (m : Bytes × json.Object). effect base m.0 m.1) base members

      Rest : Type 0
      Rest = All (λ (m : Bytes × json.Object). P m.0 m.1) members

      first :
          (here rest : ParseCtx × Bool)
          → Parses (P key value) (effect ctx.base key value) here
          → Parses Rest
              (foldl (λ base (m : Bytes × json.Object). effect base m.0 m.1) here.0.base members)
              rest
          → Parses
              (P key value × Rest)
              (foldl
                (λ base (m : Bytes × json.Object). effect base m.0 m.1)
                (effect ctx.base key value)
                members)
              (if here.1 then rest else here)
      first (c, true) rest (inl (p, ok, same)) (inl (q, ok', same')) = inl (
        (p, q),
        ok',
        same'
            ∙ ap (λ b. foldl (λ base (m : Bytes × json.Object). effect base m.0 m.1) b members)
                same,
      )
      first (c, true) rest (inl (p, ok, same)) (inr (q, bad)) = inr (λ h. q h.1, bad)
      first (c, false) rest (inl (p, ok, same)) h = absurd (true≢false ok refl)
      first (c, true) rest (inr (p, bad)) h = absurd (true≢false refl bad)
      first (c, false) rest (inr (p, bad)) h = inr (λ h. p h.0, refl)
