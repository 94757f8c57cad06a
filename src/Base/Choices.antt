-- ===== src/Base/Choices.antt =====
-- A property of what a test or a case chooses.
use mathlib.Core.Path.{◌≡◌, refl, ap}
use mathlib.Core.Bool.{Bool, true, false}
use mathlib.Core.Option.{Option, none, some}
use bcnp.Base.Tests.{if◌then◌else◌}

module _ {ℓ κ} {A : Type ℓ} (P : A → Type κ) where
  pub choose : (b : Bool) (x y : A) → (b ≡ true → P x) → (b ≡ false → P y) → P (if b then x else y)
  choose true x y f g = f refl
  choose false x y f g = g refl

  pub choose_option {μ} :
      {B : Type μ} (o : Option B) (x : A) (f : B → A)
      → (o ≡ none → P x)
      → ((b : B) → o ≡ some b → P (f b))
      → P (elim o [ none ↦ x | some b ↦ f b ])
  choose_option none x f p q = p refl
  choose_option (some b) x f p q = q b refl

module _ {ℓ} {A : Type ℓ} where
  pub pick_true : {b : Bool} (x y : A) → b ≡ true → (if b then x else y) ≡ x
  pick_true x y e = ap (λ c. if c then x else y) e

  pub pick_false : {b : Bool} (x y : A) → b ≡ false → (if b then x else y) ≡ y
  pick_false x y e = ap (λ c. if c then x else y) e

  pub pick_some {μ} :
      {B : Type μ} {o : Option B} (x : A) (f : B → A) (b : B)
      → o ≡ some b
      → (elim o [ none ↦ x | some c ↦ f c ]) ≡ f b
  pick_some x f b e = ap (λ p. elim p [ none ↦ x | some c ↦ f c ]) e

  pub pick_none {μ} :
      {B : Type μ} {o : Option B} (x : A) (f : B → A)
      → o ≡ none
      → (elim o [ none ↦ x | some c ↦ f c ]) ≡ x
  pick_none x f e = ap (λ p. elim p [ none ↦ x | some c ↦ f c ]) e
