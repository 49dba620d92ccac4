-- ===== src/Base/Members.antt =====
-- Membership in a list of numbers, and removal from it.
use Prim.Native.Nat.{ℕ, ◌≤◌}
use mathlib.Core.Path.{◌≡◌, refl, ◌∙◌}
use mathlib.Core.Bool.{Bool, true, false}
use mathlib.Core.List.{List, [], ◌∷◌}
use native.Mathlib.Omega.{arith}
use pqproxy.Base.Tests.{◌==◌, if◌then◌else◌, if_cases}
use pqproxy.Base.Lists.{length}

unfoldable pub contains : ℕ → List ℕ → Bool
contains x [] = false
contains x (y ∷ ys) = if y == x then true else contains x ys

unfoldable pub without : ℕ → List ℕ → List ℕ
without x [] = []
without x (y ∷ ys) = if y == x then without x ys else y ∷ without x ys

pub length-without-le : (x : ℕ) (ys : List ℕ) → length (without x ys) ≤ length ys
unfolding without
length-without-le x [] = omega arith
length-without-le x (y ∷ ys) = ground (arith, length-without-le x ys)

-- Leaving out nothing leaves the list as it is.
pub without_full : (x : ℕ) (ys : List ℕ) → length (without x ys) ≡ length ys → without x ys ≡ ys
unfolding without
without_full x [] e = refl
without_full x (y ∷ ys) e = ground (arith, without_full x ys, length-without-le x ys)

pub contains-without :
    (j i : ℕ) (xs : List ℕ) → contains j (without i xs) ≡ (if j == i then false else contains j xs)
unfolding contains without
contains-without j i [] = ground arith
contains-without j i (y ∷ ys) = ground (arith, contains-without j i ys)

-- No number stands in the list twice.
abbrev pub NoDup : List ℕ → Type 0
NoDup [] = Unit
NoDup (x ∷ xs) = (contains x xs ≡ false) × NoDup xs

pub without-NoDup : (i : ℕ) (xs : List ℕ) → NoDup xs → NoDup (without i xs)
unfolding without
without-NoDup i [] h = tt
without-NoDup i (y ∷ ys) (new, h) =
    if_cases NoDup (y == i) (λ e. without-NoDup i ys h)
      λ e. (contains-without y i ys ∙ rw e new, without-NoDup i ys h)
