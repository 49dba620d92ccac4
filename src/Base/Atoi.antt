-- ===== src/Base/Atoi.antt =====
-- The C library's number parsing, as the code uses it: atoi and strtol in base ten.
use Prim.Native.Nat.{ℕ, zero, suc, ◌+◌, ◌-◌, ◌*◌, ◌%◌, ◌^◌, min}
use mathlib.Core.Bool.{Bool, false, ◌&&◌, ◌||◌}
use mathlib.Core.List.{[], ◌∷◌}
use pqproxy.Base.Tests.{ltb, leb, ◌==◌, if◌then◌else◌}
use pqproxy.Base.Text.{Str}
use pqproxy.Base.Int.{ℤ, pos, negsuc}

-- isspace, in the C locale
abbrev pub is_space : ℕ → Bool
is_space c = c == 32 || leb 9 c && leb c 13

abbrev pub is_digit : ℕ → Bool
is_digit c = leb b'0' c && leb c b'9'

unfoldable pub skip_spaces : Str → Str
skip_spaces [] = []
skip_spaces (c ∷ s) = if is_space c then skip_spaces s else c ∷ s

-- The value of the leading digits, on top of `acc`, and what follows them.
unfoldable pub digits : ℕ → Str → ℕ × Str
digits acc [] = (acc, [])
digits acc (c ∷ s) =
    let rest = digits (acc * 10 + (c - b'0')) s in if is_digit c then rest else (acc, c ∷ s)

-- -n, as an integer.
abbrev pub negate : ℕ → ℤ
negate zero = pos 0
negate (suc n) = negsuc n

starts_with_digit : Str → Bool
starts_with_digit [] = false
starts_with_digit (c ∷ s) = is_digit c

-- strtol (s, &end, 10): the value, kept within `long`, and the text at `end`; a text with no digits
-- is left whole.
signed_value : Str → Str → ℤ × Str
unfolding starts_with_digit digits
signed_value whole [] = (pos 0, whole)
signed_value whole (c ∷ s) =
    if c == b'-'
    then (if starts_with_digit s
        then (let (n, end) = digits 0 s in (negate (min n (2 ^ 63)), end))
        else (pos 0, whole))
    else if c == b'+'
    then (if starts_with_digit s
        then (let (n, end) = digits 0 s in (pos (min n (2 ^ 63 - 1)), end))
        else (pos 0, whole))
    else if is_digit c
    then (let (n, end) = digits 0 (c ∷ s) in (pos (min n (2 ^ 63 - 1)), end))
    else (pos 0, whole)

unfoldable pub strtol : Str → ℤ × Str
unfolding signed_value skip_spaces
strtol s = signed_value s (skip_spaces s)

-- The two's complement pattern of the low 32 bits, and the conversion of a `long` to `int`.
abbrev pub low32 : ℤ → ℕ
low32 (pos n) = n % 2 ^ 32
low32 (negsuc n) = 2 ^ 32 - 1 - n % 2 ^ 32

abbrev pub to_int : ℤ → ℤ
to_int v = let u = low32 v in if ltb u (2 ^ 31) then pos u else negsuc (2 ^ 32 - 1 - u)

-- glibc's atoi is `(int) strtol (s, NULL, 10)`.
unfoldable pub atoi : Str → ℤ
unfolding strtol
atoi s = to_int (strtol s).0
