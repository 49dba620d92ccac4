-- ===== src/Groups.antt =====
-- src/backend_pool.c, how a pool is laid out: the list of groups, the sizes, and the user that each
-- slot logs in as. The loop over the list has the length of the text as fuel.
pub mod Listed
pub mod Shares
use pqproxy.Base.{
  ℕ, zero, suc, ◌+◌, ◌-◌, ◌/◌, ◌%◌, ◌^◌, min, Bool, true, false, ◌&&◌, ◌||◌, List, [], ◌∷◌, ◌++◌,
  Option, none, some, Str, ltb, leb, ◌==◌, if◌then◌else◌, length, drop, replicate,
}

abbrev pub is_blank : ℕ → Bool
is_blank c = c == 32 || c == 9

-- The bytes before a comma.
unfoldable pub until_comma : Str → Str
until_comma [] = []
until_comma (c ∷ s) = let rest = until_comma s in if c == b',' then [] else c ∷ rest

unfoldable pub trim_front : Str → Str
trim_front [] = []
trim_front (c ∷ s) = if is_blank c then trim_front s else c ∷ s

-- Without the blanks at the end.
unfoldable pub trim_back : Str → Str
trim_back [] = []
trim_back (c ∷ s) =
    let rest = trim_back s in if is_blank c && length rest == 0 then [] else c ∷ rest

abbrev pub trim : Str → Str
trim s = trim_back (trim_front s)

-- `if (*p == ',') p++`
abbrev pub skip_comma : Str → Str
skip_comma [] = []
skip_comma (c ∷ s) = if c == b',' then s else c ∷ s

-- `end > 0 && end < MAX_GROUP_NAME`
abbrev pub is_name : Str → Bool
is_name s = ltb 0 (length s) && ltb (length s) 64

-- The loop of parse_groups, with room for `room` names.
unfoldable pub parse_from : ℕ → ℕ → Str → List Str
unfolding until_comma trim_front trim_back
parse_from zero room p = []
parse_from (suc fuel) room [] = []
parse_from (suc fuel) zero (c ∷ p) = []
parse_from (suc fuel) (suc room) (c ∷ p) =
    let piece = until_comma (c ∷ p) in
    let rest = skip_comma (drop (length piece) (c ∷ p)) in
    elim (is_name (trim piece)) [
      | true ↦ trim piece ∷ parse_from fuel room rest
      | false ↦ parse_from fuel (suc room) rest
    ]

-- parse_groups
abbrev pub parse_groups : Str → ℕ → List Str
parse_groups csv maxn = parse_from (length csv) maxn csv

-- The sizes that pqproxy_backend_pool_create computes: n and max_conns.
unfoldable pub pool_sizes : ℕ → ℕ → Bool → Bool → ℕ × ℕ
pool_sizes pool_size n_groups use_group_as_user lazy_connect =
    let n = if pool_size == 0 then 4 else pool_size in
    let n' = if use_group_as_user && ltb 0 n_groups && ltb n n_groups then n_groups else n in
    let max_conns = min 64 ((n' + (if lazy_connect then 16 else 0)) % 2 ^ 64) in
    (min n' max_conns, max_conns)

-- `per + (g < extra ? 1 : 0)`
abbrev pub share : ℕ → ℕ → ℕ → ℕ
share per extra g = per + (if ltb g extra then 1 else 0)

-- The users of the next slots, from the group `g` on, while slots are left.
unfoldable pub group_slots : ℕ → ℕ → ℕ → ℕ → List Str → List Str
group_slots per extra left g [] = []
group_slots per extra left g (name ∷ names) =
    let count = min (share per extra g) left in
    replicate count name ++ group_slots per extra (left - count) (g + 1) names

-- The users of the slots that are warmed, in order.
unfoldable pub warm_users : ℕ → List Str → Bool → Str → List Str
unfolding group_slots
warm_users n groups use_group_as_user user =
    if use_group_as_user && ltb 0 (length groups)
    then (let per = n / length groups in
        group_slots (if per == 0 then 1 else per) (n % length groups) n 0 groups)
    else replicate n user
