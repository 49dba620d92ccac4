-- ===== src/StmtCache/Put.antt =====
-- pqproxy_stmt_cache_put: what it stores, what it leaves alone, and when it refuses.
use pqproxy.Base.{
  ℕ, ◌+◌, ◌≤◌, ◌<◌, ◌≡◌, ◌≢◌, refl, sym, subst, inl, inr, ◌⊎◌, Bool, true, false, ◌∙◌, Option, none,
  some, ℤ, Str, arith,
}
use pqproxy.Pique.{Parse, Prepared, PrepareApi, Fits, Copied, PrepareLaws}
use pqproxy.StmtCache.{
  Slot, Cache, vacant, holds, exhausted, slot_at, search, max_cached_stmts, get, put,
}
use pqproxy.StmtCache.Used.{used_all, used-lt-length, Names}
use pqproxy.StmtCache.Invariant.{
  Inv, EntryFits, at_slot, at_free, at_end, search-Names, search_cases, search-holds, search-vacant,
  search-exhausted,
}
use pqproxy.StmtCache.Written.{
  write_slot, search_new, search_same, written-Inv_new, written-Inv_known, get-written_self,
  get-written_other,
}

-- One more for a name that the cache does not hold.
abbrev pub fresh_count : Option Prepared → ℕ
fresh_count none = 1
fresh_count (some s) = 0

-- A put that succeeded: the cache afterwards holds an entry with the message's texts and types and
-- the given slot under the message's name, reads every other name as before, and counts its names.
pub record Stored (api : PrepareApi) (c : Cache) (p : Parse) (slot : ℤ) (r : Bool × Cache)
    : Type 0 where
  pub done : r.0 ≡ true
  pub inv : Inv api r.1
  pub entry : Prepared
  pub reads : get r.1 p.statement ≡ some entry
  pub copied : Copied p entry
  pub identity : entry.identity_param_slot ≡ slot
  pub others : (q : Str) → q ≢ p.statement → get r.1 q ≡ get c q
  pub counts : r.1.count ≡ c.count + fresh_count (get c p.statement)

module _ {api : PrepareApi} (laws : PrepareLaws api) {c : Cache} (inv : Inv api c) (p : Parse)
    (slot : ℤ) (fit : Fits api p) where
  -- The entry that goes into slot `i`.
  abbrev entry_for : ℕ → Prepared
  entry_for i = record (api.from_parse p (slot_at c.slots i).stmt).1 { identity_param_slot = slot }

  abbrev new_slot : ℕ → Slot
  new_slot i = record { stmt = entry_for i; in_use = true }

  abbrev known_slot : ℕ → Slot
  known_slot i = record (slot_at c.slots i) { stmt = entry_for i }

  accepted : (i : ℕ) → (api.from_parse p (slot_at c.slots i).stmt).0 ≡ true
  accepted i = laws.accepts p _ fit

  copies : (i : ℕ) → Copied p (api.from_parse p (slot_at c.slots i).stmt).1
  copies i = laws.copies p _ (accepted i)

  named : (i : ℕ) → (entry_for i).name ≡ p.statement
  named i = (copies i).name

  entry_fits : (i : ℕ) → EntryFits api (entry_for i)
  entry_fits i = record {
    name_fits = rw (named i) fit.name_fits;
    query_fits = rw ((copies i).query) fit.query_fits;
  }

  entry_Copied : (i : ℕ) → Copied p (entry_for i)
  entry_Copied i = record {
    name = (copies i).name;
    query = (copies i).query;
    n_param_types = (copies i).n_param_types;
    param_type_oids = (copies i).param_type_oids;
  }

  put-at_free :
      (i : ℕ)
      → search c.slots p.statement ≡ vacant i
      → c.count < max_cached_stmts
      → put api c p slot ≡ (true, write_slot c i (new_slot i) (c.count + 1))
  unfolding put
  put-at_free i e room = rw (e, put) (ground (arith, accepted i))

  put-at_slot :
      (i : ℕ)
      → search c.slots p.statement ≡ holds i
      → put api c p slot ≡ (true, write_slot c i (known_slot i) c.count)
  unfolding put
  put-at_slot i e = rw (e, put) (ground (arith, accepted i))

  -- A slot is free, so the count is below the number of slots.
  room_at : (i : ℕ) → search c.slots p.statement ≡ vacant i → c.count < max_cached_stmts
  room_at i e =
      let (lt, free) = search-vacant c.slots p.statement i e in
      omega (arith, inv.counted, inv.width, used-lt-length c.slots i (rw inv.width lt) free)

  get_at_free : (i : ℕ) → search c.slots p.statement ≡ vacant i → get c p.statement ≡ none
  unfolding get
  get_at_free i e = rw (e, get)

  get_at_slot :
      (i : ℕ)
      → search c.slots p.statement ≡ holds i
      → get c p.statement ≡ some (slot_at c.slots i).stmt
  unfolding get
  get_at_slot i e = rw (e, get)

  -- What reads as the entry under its own name reads so under the message's.
  read_as :
      (i : ℕ) (c' : Cache)
      → get c' (entry_for i).name ≡ some (entry_for i)
      → get c' p.statement ≡ some (entry_for i)
  read_as i c' = subst (λ q. get c' q ≡ some (entry_for i)) (named i)

  get_at_end : search c.slots p.statement ≡ exhausted → get c p.statement ≡ none
  unfolding get
  get_at_end e = rw (e, get)

  stored_new :
      (i : ℕ) → search c.slots p.statement ≡ vacant i → Stored api c p slot (put api c p slot)
  stored_new i e =
      let (lt, free) = search-vacant c.slots p.statement i e in
      let e' : search c.slots (entry_for i).name ≡ vacant i = rw (named i) e in
      let inv' = written-Inv_new inv i (new_slot i) (c.count + 1) lt refl (entry_fits i) e' refl in
      rw (put-at_free i e (room_at i e)) (record {
        done = refl;
        inv = inv';
        entry = entry_for i;
        reads = read_as i (write_slot c i (new_slot i) (c.count + 1)) (
            get-written_self inv i (new_slot i) (c.count + 1) lt refl (entry_fits i)
              (search_new inv i (new_slot i) (c.count + 1) lt refl (entry_fits i) e'));
        copied = entry_Copied i;
        identity = refl;
        others = λ q ne.
            get-written_other inv i (new_slot i) (c.count + 1) lt refl (entry_fits i) q inv'
              (rw (named i) (λ e. ne (sym e))) (inl free);
        counts = rw (get_at_free i e) refl;
      })

  stored_known :
      (i : ℕ) → search c.slots p.statement ≡ holds i → Stored api c p slot (put api c p slot)
  stored_known i e =
      let (lt, m) = search-holds c.slots p.statement i e in
      let names : Names c.slots (entry_for i).name i = record {
        in_use = m.in_use;
        name = m.name ∙ sym (named i);
      } in
      let inv' =
        written-Inv_known inv i (known_slot i) c.count lt m.in_use (entry_fits i) names refl in
      rw (put-at_slot i e) (record {
        done = refl;
        inv = inv';
        entry = entry_for i;
        reads = read_as i (write_slot c i (known_slot i) c.count) (
            get-written_self inv i (known_slot i) c.count lt m.in_use (entry_fits i) (
              search_same inv i (known_slot i) c.count lt m.in_use (entry_fits i) _ names
              ∙ search-Names inv _ i names));
        copied = entry_Copied i;
        identity = refl;
        others = λ q ne.
            get-written_other inv i (known_slot i) c.count lt m.in_use (entry_fits i) q inv'
              (rw (named i) (λ e. ne (sym e))) (inr names.name);
        counts = rw (get_at_slot i e) (omega arith);
      })

  full_count : search c.slots p.statement ≡ exhausted → c.count ≡ max_cached_stmts
  full_count e = omega (
    arith,
    inv.counted,
    inv.width,
    used_all c.slots (λ i h. search-exhausted c.slots p.statement i e (rw inv.width at h)),
  )

  -- In a well-formed cache, a put of texts that fit succeeds for a known name, and for a new name
  -- while fewer than 64 names are stored; afterwards the cache is well formed, reads the message's
  -- texts and the given slot under its name, reads every other name as before, and counts its
  -- names.
  pub put-Stored :
      (get c p.statement ≢ none) ⊎ (c.count < max_cached_stmts)
      → Stored api c p slot (put api c p slot)
  put-Stored room = elim (search_cases c.slots p.statement) [
    | at_slot i e ↦ stored_known i e
    | at_free i e ↦ stored_new i e
    | at_end e ↦ absurd (no_room e room)
  ]
    where
      no_room :
          search c.slots p.statement ≡ exhausted
          → (get c p.statement ≢ none) ⊎ (c.count < max_cached_stmts)
          → ⊥
      no_room e (inl ne) = ne (get_at_end e)
      no_room e (inr lt) = omega (arith, full_count e)

  -- In a well-formed cache, a put of a new name whose texts fit fails and changes nothing if 64
  -- names are stored.
  pub put-full :
      get c p.statement ≡ none → max_cached_stmts ≤ c.count → put api c p slot ≡ (false, c)
  unfolding put
  put-full absent full = elim (search_cases c.slots p.statement) [
    | at_slot i e ↦ cc (absent, get_at_slot i e)
    | at_free i e ↦ absurd (omega (arith, room_at i e))
    | at_end e ↦ rw (e, put)
  ]
