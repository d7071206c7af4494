-- ===== src/Prelude/Options.antt =====
-- Case splits on options, and results carried along an equation between them.
use mathlib.Core.Path.{◌≡◌, refl, subst}
use mathlib.Core.Logic.{◌⊎◌, inl, inr}
use mathlib.Core.Option.{Option, none, some}

pub Option-cases {ℓ} : {A : Type ℓ} (o : Option A) → (o ≡ none) ⊎ ((a : A) × (o ≡ some a))
Option-cases none = inl refl
Option-cases (some a) = inr (a, refl)

-- What holds of one result holds of the same result.
pub carry_some {ℓ} :
    {A B : Type ℓ} (P : A → B → Type ℓ) {a a' : A} {b b' : B}
    → ◌≡◌ {A = Option (A × B)} (some (a, b)) (some (a', b'))
    → P a b
    → P a' b'
carry_some P {a} {a'} {b} {b'} e p =
    let first : a ≡ a' = cc in
    let second : b ≡ b' = cc in subst (λ x. P x b') first (subst (λ y. P a y) second p)
