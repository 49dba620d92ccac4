-- ===== src/Settings/Rows.antt =====
-- A chain of `if (test) { ... }` with an early return in each, as a list of rows.
use pqproxy.Base.{◌≡◌, refl, Bool, true, false, List, [], ◌∷◌, ◌++◌, if◌then◌else◌}

-- The first row whose test holds.
abbrev pub first_match {ℓ} : {A : Type ℓ} → A → List (Bool × A) → A
first_match otherwise [] = otherwise
first_match otherwise ((test, r) ∷ rows) = if test then r else first_match otherwise rows

-- What each row gives has `P`, if its test holds.
module _ {ℓ κ} {A : Type ℓ} (P : A → Type κ) where
  pub data Rows : List (Bool × A) → Type (ℓ ⊔ κ) where
    no_row : Rows []
    row :
        {test : Bool} {r : A} {rows : List (Bool × A)}
        → (test ≡ true → P r)
        → Rows rows
        → Rows ((test, r) ∷ rows)

module _ {ℓ κ} {A : Type ℓ} {P : A → Type κ} where
  pub append-Rows : {xs ys : List (Bool × A)} → Rows P xs → Rows P ys → Rows P (xs ++ ys)
  append-Rows no_row k = k
  append-Rows (row h hs) k = row h (append-Rows hs k)

  pub first_match-Rows :
      (otherwise : A) (rows : List (Bool × A))
      → P otherwise
      → Rows P rows
      → P (first_match otherwise rows)
  first_match-Rows otherwise _ h no_row = h
  first_match-Rows otherwise ((true, r) ∷ rows) h (row k hs) = k refl
  first_match-Rows otherwise ((false, r) ∷ rows) h (row k hs) = first_match-Rows otherwise rows h hs
