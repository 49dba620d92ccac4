-- ===== src/IdentitySlot.antt =====
-- src/rewrite_engine.c, pqproxy_resolve_identity_slot: which Bind parameter carries the identity,
-- from a number, `$N`, or a column name of an INSERT. A NULL name is the empty one here.
pub mod Columns
pub mod Insert
use pqproxy.Base.{
  ℕ, zero, suc, ◌+◌, ◌-◌, Bool, true, false, ◌&&◌, ◌||◌, not, List, [], ◌∷◌, Option, none, some, ℤ,
  pos, Str, leb, ◌==◌, if◌then◌else◌, get_or, take, drop, length, to_int16, decrement,
}
use pqproxy.Base.Atoi.{atoi, is_digit}

abbrev pub is_ident_char : ℕ → Bool
is_ident_char c =
    leb b'a' c && leb c b'z'
    || leb b'A' c && leb c b'Z'
    || leb b'0' c && leb c b'9'
    || c == b'_'
    || c == b'"'

abbrev pub to_lower : ℕ → ℕ
to_lower c = if leb b'A' c && leb c b'Z' then c + 32 else c

unfoldable pub name_eq_ci : Str → Str → Bool
name_eq_ci [] [] = true
name_eq_ci [] (b ∷ y) = false
name_eq_ci (a ∷ x) [] = false
name_eq_ci (a ∷ x) (b ∷ y) = to_lower a == to_lower b && name_eq_ci x y

unfoldable pub all_digit : Str → Bool
all_digit [] = true
all_digit (c ∷ s) = is_digit c && all_digit s

-- `(p[k] == lower || p[k] == upper)`
letter : Str → ℕ → ℕ → ℕ → Bool
letter p k lower upper = get_or p k 0 == lower || get_or p k 0 == upper

-- The keyword stands at `p`, and no identifier goes on behind it.
unfoldable pub at_values : Str → Bool
unfolding letter
at_values p =
    letter p 0 b'v' b'V'
    && letter p 1 b'a' b'A'
    && letter p 2 b'l' b'L'
    && letter p 3 b'u' b'U'
    && letter p 4 b'e' b'E'
    && letter p 5 b's' b'S'
    && not (is_ident_char (get_or p 6 0))

-- The first loop: the index behind the last `(` before VALUES, and the index where it stopped.
unfoldable pub scan : Str → ℕ → Option ℕ → Option ℕ × ℕ
scan [] p cols = (cols, p)
scan (c ∷ s) p cols =
    let rest = scan s (p + 1) (if c == b'(' then some (p + 1) else cols) in
    if at_values (c ∷ s) then (cols, p) else rest

abbrev pub is_blank : ℕ → Bool
is_blank c = c == 32 || c == 9 || c == 10 || c == 13

unfoldable pub skip_blanks : Str → Str
skip_blanks [] = []
skip_blanks (c ∷ s) = if is_blank c then skip_blanks s else c ∷ s

-- At most `room` bytes of a name, and what follows.
unfoldable pub plain_name : ℕ → Str → Str × Str
plain_name zero s = ([], s)
plain_name (suc room) [] = ([], [])
plain_name (suc room) (c ∷ s) =
    let (name, rest) = plain_name room s in
    if is_ident_char c && not (c == b'"') then (c ∷ name, rest) else ([], c ∷ s)

quoted_rest : ℕ → Str → Str × Str
quoted_rest zero s = ([], s)
quoted_rest (suc room) [] = ([], [])
quoted_rest (suc room) (c ∷ s) =
    let (name, rest) = quoted_rest room s in if c == b'"' then ([], c ∷ s) else (c ∷ name, rest)

drop_quote : Str → Str
drop_quote [] = []
drop_quote (c ∷ s) = if c == b'"' then s else c ∷ s

quoted_name : Str → Str × Str
unfolding quoted_rest drop_quote
quoted_name s = let (name, rest) = quoted_rest 63 s in (name, drop_quote rest)

-- `sizeof (namebuf)` is 64, so a name has 63 bytes at most.
column_name : Str → Str × Str
unfolding quoted_name
column_name [] = ([], [])
column_name (c ∷ s) = if c == b'"' then quoted_name s else plain_name 63 (c ∷ s)

unfoldable pub skip_to_delimiter : Str → Str
skip_to_delimiter [] = []
skip_to_delimiter (c ∷ s) = if c == b',' || c == b')' then c ∷ s else skip_to_delimiter s

matches : Str → Str → Bool
matches [] param = false
matches (c ∷ name) param = name_eq_ci (c ∷ name) param

-- What follows the delimiter that ends a column, if that is a comma.
after_comma : Str → Option Str
after_comma [] = none
after_comma (c ∷ s) = if c == b',' then some s else none

at_list_end : Str → Bool
at_list_end [] = true
at_list_end (c ∷ s) = c == b')'

-- The second loop, over the text up to VALUES. Each round but the last passes a comma, so the
-- length of the text is fuel enough.
unfoldable pub find_column : ℕ → Str → Str → ℕ → Option ℕ
unfolding after_comma at_list_end column_name matches
find_column zero q param idx = none
find_column (suc fuel) q param idx =
    let q1 = skip_blanks q in
    let (name, q2) = column_name q1 in
    let next = after_comma (skip_to_delimiter q2) in
    let continue : Option ℕ = elim next [
      | none ↦ none
      | some q3 ↦ find_column fuel q3 param (idx + 1)
    ] in
    if at_list_end q1 then none else if matches name param then some idx else continue

unfoldable pub or_fallback : ℤ → Option ℕ → ℤ
or_fallback fallback none = fallback
or_fallback fallback (some i) = to_int16 (pos i)

column_slot : Str → Str → ℤ → Option ℕ × ℕ → ℤ
unfolding or_fallback
column_slot query param fallback (none, end) = fallback
column_slot query param fallback (some start, end) =
    let region = drop start (take end query) in
    or_fallback fallback (find_column (length region + 1) region param 0)

-- A parameter name that is not empty.
named_slot : Str → ℕ → Str → ℤ → ℤ
unfolding column_slot all_digit
named_slot query c param fallback =
    if c == b'$'
    then to_int16 (decrement (to_int16 (atoi param)))
    else if all_digit (c ∷ param)
    then to_int16 (atoi (c ∷ param))
    else column_slot query (c ∷ param) fallback (scan query 0 none)

unfoldable pub resolve_identity_slot : Str → Str → ℤ → ℤ
unfolding named_slot
resolve_identity_slot query [] fallback = fallback
resolve_identity_slot query (c ∷ param) fallback = named_slot query c param fallback
