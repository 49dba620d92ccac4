-- ===== src/Scalars.antt =====
-- src/config_yaml.c, the parsers of scalar values. A text after the number is not looked at.
pub mod Agree
use pqproxy.Base.{
  ℕ, ◌^◌, Bool, true, false, ◌||◌, Option, none, some, ℤ, pos, negsuc, Str, codes, str_eq, length,
  ltb, ◌==◌, if◌then◌else◌,
}
use pqproxy.Base.Atoi.{strtol, to_int}

unfoldable pub parse_bool : Str → Option Bool
parse_bool s =
    if str_eq s (codes "1")
      || str_eq s (codes "true")
      || str_eq s (codes "True")
      || str_eq s (codes "yes")
      || str_eq s (codes "on")
    then some true
    else if str_eq s (codes "0")
        || str_eq s (codes "false")
        || str_eq s (codes "False")
        || str_eq s (codes "no")
        || str_eq s (codes "off")
    then some false
    else none

-- `end == s`
abbrev pub no_number : Str → Str → Bool
no_number s end = length end == length s

-- The value of parse_u16, parse_int and parse_size, from what strtol gives; none for -1.
unfoldable pub u16_of : ℤ → Option ℕ
u16_of (pos n) = if ltb 65535 n then none else some n
u16_of (negsuc n) = none

unfoldable pub size_of : ℤ → Option ℕ
size_of (pos n) = some n
size_of (negsuc n) = none

unfoldable pub parse_u16 : Str → Option ℕ
unfolding u16_of
parse_u16 s = let (v, end) = strtol s in if no_number s end then none else u16_of v

unfoldable pub parse_int : Str → Option ℤ
parse_int s = let (v, end) = strtol s in if no_number s end then none else some (to_int v)

unfoldable pub parse_size : Str → Option ℕ
unfolding size_of
parse_size s = let (v, end) = strtol s in if no_number s end then none else size_of v
