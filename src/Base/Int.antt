-- ===== src/Base/Int.antt =====
-- Signed machine integers: `negsuc n` is -(n + 1).
use Prim.Native.Nat.{ℕ, zero, suc, ◌-◌, ◌%◌, ◌^◌}
use mathlib.Core.Bool.{Bool, true, false}
use pqproxy.Base.Tests.{ltb, if◌then◌else◌}

pub data ℤ : Type 0 where
  pos : ℕ → ℤ
  negsuc : ℕ → ℤ

-- The two's complement pattern of the low 16 bits, and `(int16_t) v`.
abbrev pub low16 : ℤ → ℕ
low16 (pos n) = n % 2 ^ 16
low16 (negsuc n) = 2 ^ 16 - 1 - n % 2 ^ 16

abbrev pub to_int16 : ℤ → ℤ
to_int16 v = let u = low16 v in if ltb u (2 ^ 15) then pos u else negsuc (2 ^ 16 - 1 - u)

-- `v >= 0`
abbrev pub is_nonneg : ℤ → Bool
is_nonneg (pos n) = true
is_nonneg (negsuc n) = false

-- `v - 1`
abbrev pub decrement : ℤ → ℤ
decrement (pos zero) = negsuc 0
decrement (pos (suc n)) = pos n
decrement (negsuc n) = negsuc (suc n)
