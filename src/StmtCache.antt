-- ===== src/StmtCache.antt =====
-- src/rewrite_engine.c, the per-frontend cache of prepared statements: an open-addressing hash
-- table of 64 slots with linear probing and no tombstones. The pointers are never NULL here.
pub mod Probe
pub mod Used
pub mod Invariant
pub mod Written
pub mod Put
pub mod Reinsert
pub mod Remove
pub mod Refine
use pqproxy.Base.{
  ℕ, zero, suc, ◌+◌, ◌-◌, ◌*◌, ◌%◌, ◌^◌, bit_xor, Bool, true, false, List, [], ◌∷◌, Option, none,
  some, ℤ, pos, Str, str_eq, strncpy, get_or, set, replicate, leb, if◌then◌else◌, arith,
}
use pqproxy.Pique.{Parse, Prepared, PrepareApi}

-- pqproxy_stmt_slot_t
pub record Slot : Type 0 where
  pub stmt : Prepared
  pub in_use : Bool

-- pqproxy_stmt_cache_t
pub record Cache : Type 0 where
  pub slots : List Slot
  pub count : ℕ

abbrev pub max_cached_stmts : ℕ
max_cached_stmts = 64

abbrev pub empty_slot : Slot
empty_slot = record {
  stmt = record {
    name = [];
    query = [];
    n_param_types = 0;
    param_type_oids = [];
    identity_param_slot = pos 0;
  };
  in_use = false;
}

abbrev pub slot_at : List Slot → ℕ → Slot
slot_at slots i = get_or slots i empty_slot

fnv_1a : ℕ → Str → ℕ
fnv_1a h [] = h
fnv_1a h (c ∷ cs) = fnv_1a (bit_xor h c * 16_777_619 % 2 ^ 32) cs

pub stmt_name_hash : Str → ℕ
unfolding fnv_1a
stmt_name_hash name = fnv_1a 2_166_136_261 name

-- memset (cache, 0, sizeof (*cache))
unfoldable pub init : Cache
init = record { slots = replicate max_cached_stmts empty_slot; count = 0 }

-- How a probe sequence ends: at an empty slot, at the name, or after all the slots.
pub data Probed : Type 0 where
  vacant holds : ℕ → Probed
  exhausted : Probed

-- The loop that put, get and remove share, from the probe `k` on, for `n` rounds.
unfoldable pub probe : List Slot → ℕ → Str → ℕ → ℕ → Probed
probe slots h name zero k = exhausted
probe slots h name (suc n) k =
    let i = (h + k) % max_cached_stmts in
    let s = slot_at slots i in
    let rest = probe slots h name n (k + 1) in
    if s.in_use then if str_eq s.stmt.name name then holds i else rest else vacant i

unfoldable pub search : List Slot → Str → Probed
search slots name = probe slots (stmt_name_hash name) name max_cached_stmts 0

-- `cache->slots[i].stmt.identity_param_slot = identity_slot`
abbrev with_slot : Prepared → ℤ → Prepared
with_slot s slot = record s { identity_param_slot = slot }

-- Writing the entry of a new name, and overwriting the entry of a known one.
put_new : PrepareApi → Cache → Parse → ℤ → ℕ → Bool × Cache
put_new api c p slot i =
    let old = slot_at c.slots i in
    let (done, stmt) = api.from_parse p old.stmt in
    if done
    then (
      true,
      record {
        slots = set c.slots i (record { stmt = with_slot stmt slot; in_use = true });
        count = c.count + 1;
      },
    )
    else (false, record c { slots = set c.slots i (record old { stmt = stmt }) })

put_known : PrepareApi → Cache → Parse → ℤ → ℕ → Bool × Cache
put_known api c p slot i =
    let old = slot_at c.slots i in
    let (done, stmt) = api.from_parse p old.stmt in
    (
      done,
      record c {
        slots = set c.slots i (record old { stmt = if done then with_slot stmt slot else stmt });
      },
    )

-- Whether the call returned 0, and the cache afterwards.
unfoldable pub put : PrepareApi → Cache → Parse → ℤ → Bool × Cache
unfolding put_new put_known
put api c p slot = elim (search c.slots p.statement) [
  | holds i ↦ put_known api c p slot i
  | vacant i ↦ if leb max_cached_stmts c.count then (false, c) else put_new api c p slot i
  | exhausted ↦ (false, c)
]

unfoldable pub get : Cache → Str → Option Prepared
get c name = elim (search c.slots name) [ holds i ↦ some (slot_at c.slots i).stmt | _ ↦ none ]

-- The Parse message that remove makes of an entry.
unfoldable pub rebuilt : PrepareApi → Prepared → Parse
rebuilt api s = record {
  statement = strncpy (api.stmt_cap - 1) s.name;
  query = strncpy (api.query_cap - 1) s.query;
  n_param_types = s.n_param_types;
  param_type_oids = s.param_type_oids;
}

-- The loop over the saved slots `old`.
unfoldable pub reinsert : PrepareApi → Cache → List Slot → Bool × Cache
reinsert api c [] = (true, c)
reinsert api c (s ∷ old) =
    let (done, c') =
      if s.in_use then put api c (rebuilt api s.stmt) s.stmt.identity_param_slot else (true, c) in
    let rest = reinsert api c' old in if done then rest else (false, c')

unfoldable pub remove : PrepareApi → Cache → Str → Bool × Cache
remove api c name = elim (search c.slots name) [
  | holds i ↦ reinsert api init (set c.slots i empty_slot)
  | _ ↦ (false, c)
]
