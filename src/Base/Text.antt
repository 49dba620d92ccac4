-- ===== src/Base/Text.antt =====
-- C strings: the bytes before the terminating NUL, and the parts of string.h that the code calls.
use Prim.Native.Nat.{ℕ}
use Prim.Native.Char.{code}
use Prim.Native.String.{String}
use mathlib.Core.Path.{◌≡◌, refl}
use mathlib.Core.Bool.{Bool, true, false, ◌&&◌}
use mathlib.Core.Logic.{◌↔◌}
use mathlib.Core.List.{List, [], ◌∷◌}
use native.Mathlib.Omega.{arith}
use pqproxy.Base.Tests.{◌==◌}
use pqproxy.Base.Lists.{take}

abbrev pub Str : Type 0
Str = List ℕ

-- A literal's bytes (the code's literals are ASCII).
abbrev pub codes : String → Str
codes String.[] = []
codes (String.◌∷◌ c s) = code c ∷ codes s

-- `strcmp (a, b) == 0`
unfoldable pub str_eq : Str → Str → Bool
str_eq [] [] = true
str_eq [] (b ∷ y) = false
str_eq (a ∷ x) [] = false
str_eq (a ∷ x) (b ∷ y) = a == b && str_eq x y

pub str_eq→eq : (a b : Str) → str_eq a b ≡ true → a ≡ b
unfolding str_eq
str_eq→eq [] [] h = refl
str_eq→eq [] (b ∷ y) h = cc
str_eq→eq (a ∷ x) [] h = cc
str_eq→eq (a ∷ x) (b ∷ y) h = ground (arith, str_eq→eq x y)

pub str_eq_refl : (a : Str) → str_eq a a ≡ true
unfolding str_eq
str_eq_refl [] = refl
str_eq_refl (a ∷ x) = ground (arith, str_eq_refl x)

pub str_eq_iff : (a b : Str) → (str_eq a b ≡ true) ↔ (a ≡ b)
str_eq_iff a b = (str_eq→eq a b, λ e. rw e (str_eq_refl b))

-- `strncpy (dst, src, n)` into a zeroed buffer that is longer than `n`: at most `n` bytes are kept.
abbrev pub strncpy : ℕ → Str → Str
strncpy n s = take n s
