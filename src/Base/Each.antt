-- ===== src/Base/Each.antt =====
-- What holds of the value of an optional result, if there is one.
use mathlib.Core.Path.{◌≡◌, refl}
use mathlib.Core.Option.{Option, none, some}

-- What an optional value satisfies, if there is one.
abbrev pub AllOf {ℓ κ} : {A : Type ℓ} → (A → Type κ) → Option A → Type κ
AllOf P none = Unit
AllOf P (some a) = P a

-- The value, if there is one, has `P`.
pub data Each {ℓ κ} {A : Type ℓ} (P : A → Type κ) : Option A → Type (ℓ ⊔ κ) where
  nothing : Each P none
  value : {a : A} → P a → Each P (some a)

-- What each value of `o` leads to, where nothing leads to nothing.
pub then-Each {ℓ κ μ ν} :
    {A : Type ℓ} {B : Type κ} {P : A → Type μ} {R : B → Type ν} (f : A → Option B) {o : Option A}
    → Each P o
    → ((a : A) → P a → Each R (f a))
    → Each R (elim o as (λ x. Option B) [ none ↦ none | some a ↦ f a ])
then-Each f nothing k = nothing
then-Each f (value {a = a} h) k = k a h

pub Each-itself {ℓ} : {A : Type ℓ} (o : Option A) → Each (λ a. o ≡ some a) o
Each-itself none = nothing
Each-itself (some a) = value refl

pub of_value {ℓ κ} : {A : Type ℓ} {P : A → Type κ} {a : A} → Each P (some a) → P a
of_value (value h) = h
