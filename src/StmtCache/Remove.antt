-- ===== src/StmtCache/Remove.antt =====
-- pqproxy_stmt_cache_remove: the name is gone, and every other entry is still found.
use mathlib.Core.Bool.{false≢true}
use mathlib.Core.Option.{or_else}
use pqproxy.Base.{
  ℕ, ◌+◌, ◌<◌, ◌≡◌, ◌≢◌, refl, sym, ap, Bool, true, false, ◌∙◌, none, Str, str_eq_iff, length, set,
  arith, ℕ_discrete, get_or-set_self, get_or-set_ne,
}
use pqproxy.Pique.{PrepareApi, PrepareLaws}
use pqproxy.StmtCache.{
  Slot, Cache, vacant, exhausted, empty_slot, slot_at, search, init, get, reinsert, remove,
}
use pqproxy.StmtCache.Used.{used, used-set, used-le-length, one_if, Names, Unique, lookup-set_empty}
use pqproxy.StmtCache.Invariant.{
  Inv, EntryFits, at_slot, at_free, at_end, search_cases, search-holds, Inv-Unique, get-eq-lookup,
  init-Inv, get-init,
}
use pqproxy.StmtCache.Reinsert.{Reinserted, reinsert-Reinserted}

-- A remove that succeeded: one entry less, the name is not found, all other names read as before.
pub record Removed (api : PrepareApi) (c : Cache) (name : Str) (r : Bool × Cache) : Type 0 where
  pub done : r.0 ≡ true
  pub inv : Inv api r.1
  pub gone : get r.1 name ≡ none
  pub others : (q : Str) → q ≢ name → get r.1 q ≡ get c q
  pub counts : r.1.count + 1 ≡ c.count

pub count-init : init.count ≡ 0
unfolding init
count-init = refl

module _ {api : PrepareApi} {c : Cache} (inv : Inv api c) (i : ℕ) (inside : i < length c.slots)
    (filled : (slot_at c.slots i).in_use ≡ true) where
  cleared_cases :
      (j : ℕ)
      → (slot_at (set c.slots i empty_slot) j).in_use ≡ true
      → slot_at (set c.slots i empty_slot) j ≡ slot_at c.slots j
  cleared_cases j e = elim (ℕ_discrete i j) [
    | yes p ↦ absurd (
        false≢true (
          sym (ap (λ (s : Slot). s.in_use) (get_or-set_self c.slots i empty_slot empty_slot inside))
          ∙ rw (← p) at e))
    | no ne ↦ get_or-set_ne c.slots empty_slot empty_slot ne
  ]

  cleared-fits :
      (j : ℕ)
      → (slot_at (set c.slots i empty_slot) j).in_use ≡ true
      → EntryFits api (slot_at (set c.slots i empty_slot) j).stmt
  cleared-fits j e = let same = cleared_cases j e in rw same (inv.fits j (rw same at e))

  cleared-Names : (q : Str) (j : ℕ) → Names (set c.slots i empty_slot) q j → Names c.slots q j
  cleared-Names q j m =
      let same = cleared_cases j m.in_use in
      record { in_use = rw same at (m.in_use); name = rw same at (m.name) }

  cleared-Unique : Unique (set c.slots i empty_slot)
  cleared-Unique q j k a b = Inv-Unique inv q j k (cleared-Names q j a) (cleared-Names q k b)

  cleared-used : used (set c.slots i empty_slot) + 1 ≡ c.count
  cleared-used = omega (arith, used-set c.slots i empty_slot inside, inv.counted, ap one_if filled)

  -- The rehash of the cleared table succeeds and holds what the cleared table holds.
  cleared_back :
      PrepareLaws api
      → Reinserted api init
          (set c.slots i empty_slot)
          (reinsert api init (set c.slots i empty_slot))
  cleared_back laws =
      reinsert-Reinserted laws {c = init} _ (init-Inv api) cleared-fits cleared-Unique
        (λ q j m. get-init api q)
        (omega (arith, count-init, cleared-used, used-le-length c.slots, inv.width, inv.counted))

get_free : (c : Cache) (q : Str) (i : ℕ) → search c.slots q ≡ vacant i → get c q ≡ none
unfolding get
get_free c q i e = rw (e, get)

get_end : (c : Cache) (q : Str) → search c.slots q ≡ exhausted → get c q ≡ none
unfolding get
get_end c q e = rw (e, get)

-- In a well-formed cache, removing a known name succeeds and leaves a well-formed cache that no
-- longer reads the name, reads every other name as before, and counts one name less.
pub remove-Removed :
    {api : PrepareApi} (laws : PrepareLaws api) {c : Cache} (inv : Inv api c) (name : Str)
    → get c name ≢ none
    → Removed api c name (remove api c name)
unfolding remove or_else
remove-Removed {api} laws {c} inv name present = elim (search_cases c.slots name) [
  | at_free i e ↦ absurd (present (get_free c name i e))
  | at_end e ↦ absurd (present (get_end c name e))
  | at_slot i e ↦
      let (lt, m) = search-holds c.slots name i e in
      let inside : i < length c.slots = rw inv.width lt in
      let back = cleared_back inv i inside m.in_use laws in
      rw (e, remove)
        (record {
          done = back.done;
          inv = back.inv;
          gone = ground (
            arith,
            back.reads name,
            get-init api name,
            lookup-set_empty name c.slots i inside (Inv-Unique inv) m.in_use,
            str_eq_iff (slot_at c.slots i).stmt.name name,
            m.name,
          );
          others = λ q ne. ground (
            arith,
            back.reads q,
            get-init api q,
            get-eq-lookup inv q,
            lookup-set_empty q c.slots i inside (Inv-Unique inv) m.in_use,
            str_eq_iff (slot_at c.slots i).stmt.name q,
            m.name,
          );
          counts = omega (arith, back.counts, count-init, cleared-used inv i inside m.in_use);
        })
]

-- Removing a name that is not there fails and changes nothing.
pub remove_missing :
    (api : PrepareApi) (c : Cache) (name : Str) → get c name ≡ none → remove api c name ≡ (false, c)
unfolding remove get
remove_missing api c name absent = ground arith
