-- ===== src/StmtCache/Invariant.antt =====
-- Well-formed caches: every entry is where its name is looked up, the count is right, and the
-- entries fit the buffers of a Parse message.
use mathlib.Core.Bool.{false≢true}
use pqproxy.Base.{
  ℕ, zero, suc, ◌+◌, ◌-◌, ◌%◌, ◌<◌, ◌≡◌, refl, sym, inl, inr, true, false, ◌∙◌, List, none, Str,
  length, length-replicate, replicate, arith, get_or-replicate,
}
use pqproxy.Pique.{Prepared, PrepareApi}
use pqproxy.StmtCache.{
  Slot, Cache, Probed, vacant, holds, exhausted, empty_slot, slot_at, search, max_cached_stmts,
  stmt_name_hash, init, get,
}
use pqproxy.StmtCache.Probe.{probe-holds, probe-vacant, probe-exhausted}
use pqproxy.StmtCache.Used.{used, used-replicate, Names, Unique, lookup, lookup_cases}

pub record EntryFits (api : PrepareApi) (s : Prepared) : Type 0 where
  pub name_fits : length s.name < api.stmt_cap
  pub query_fits : length s.query < api.query_cap

pub record Inv (api : PrepareApi) (c : Cache) : Type 0 where
  pub width : length c.slots ≡ max_cached_stmts
  pub counted : c.count ≡ used c.slots
  pub reach :
      (i : ℕ)
      → (slot_at c.slots i).in_use ≡ true
      → search c.slots (slot_at c.slots i).stmt.name ≡ holds i
  pub fits : (i : ℕ) → (slot_at c.slots i).in_use ≡ true → EntryFits api (slot_at c.slots i).stmt

pub search-holds :
    (slots : List Slot) (q : Str) (i : ℕ)
    → search slots q ≡ holds i
    → (i < max_cached_stmts) × Names slots q i
unfolding search
search-holds slots q i e =
    let (lt, used, name) = probe-holds slots (stmt_name_hash q) q 64 0 i e in
    (lt, record { in_use = used; name = name })

pub search-vacant :
    (slots : List Slot) (q : Str) (i : ℕ)
    → search slots q ≡ vacant i
    → (i < max_cached_stmts) × ((slot_at slots i).in_use ≡ false)
unfolding search
search-vacant slots q i e = probe-vacant slots (stmt_name_hash q) q 64 0 i e

-- A search that goes through all the slots finds them all in use: the probes visit every index.
pub search-exhausted :
    (slots : List Slot) (q : Str) (i : ℕ)
    → search slots q ≡ exhausted
    → i < max_cached_stmts
    → (slot_at slots i).in_use ≡ true
unfolding search
search-exhausted slots q i e lt =
    let h = stmt_name_hash q in
    let j = (i + 64 - h % 64) % 64 in
    subst_index (probe-exhausted slots h q 64 0 j e (omega arith) (omega arith)) (omega arith)
  where
    subst_index :
        {a : ℕ} → (slot_at slots a).in_use ≡ true → a ≡ i → (slot_at slots i).in_use ≡ true
    subst_index u p = rw (← p) u

pub data SearchCase (slots : List Slot) (q : Str) : Type 0 where
  at_slot : (i : ℕ) → search slots q ≡ holds i → SearchCase slots q
  at_free : (i : ℕ) → search slots q ≡ vacant i → SearchCase slots q
  at_end : search slots q ≡ exhausted → SearchCase slots q

pub search_cases : (slots : List Slot) (q : Str) → SearchCase slots q
search_cases slots q = go (search slots q) refl
  where
    go : (r : Probed) → search slots q ≡ r → SearchCase slots q
    go (holds i) e = at_slot i e
    go (vacant i) e = at_free i e
    go exhausted e = at_end e

module _ {api : PrepareApi} {c : Cache} (inv : Inv api c) where
  -- A slot in use under a name is the one that the search for it ends at.
  pub search-Names : (q : Str) (i : ℕ) → Names c.slots q i → search c.slots q ≡ holds i
  search-Names q i m = rw (← m.name) (inv.reach i m.in_use)

  pub Inv-Unique : Unique c.slots
  Inv-Unique q i j a b =
      let p : holds i ≡ holds j = sym (search-Names q i a) ∙ search-Names q j b in ground arith

  -- Looking a name up by probing and by a scan of all the slots come to the same.
  pub get-eq-lookup : (q : Str) → get c q ≡ lookup q c.slots
  unfolding get
  get-eq-lookup q = elim (lookup_cases q c.slots) [
    | inr (i, m, found) ↦ rw (found, search-Names q i m, get)
    | inl (absent, others) ↦ elim (search_cases c.slots q) [
      | at_slot i e ↦ absurd (others i (search-holds c.slots q i e).1)
      | at_free i e ↦ rw (absent, e, get)
      | at_end e ↦ rw (absent, e, get)
    ]
  ]

free_replicate : (n i : ℕ) → (slot_at (replicate n empty_slot) i).in_use ≡ false
free_replicate n i = rw (get_or-replicate n i empty_slot)

pub init-Inv : (api : PrepareApi) → Inv api init
unfolding init
init-Inv api = record {
  width = length-replicate 64 empty_slot;
  counted = sym (used-replicate 64);
  reach = λ i e. absurd (unused i e);
  fits = λ i e. absurd (unused i e);
}
  where
    unused : (i : ℕ) → (slot_at (replicate 64 empty_slot) i).in_use ≡ true → ⊥
    unused i e = false≢true (sym (free_replicate 64 i) ∙ e)

lookup-replicate : (n : ℕ) (q : Str) → lookup q (replicate n empty_slot) ≡ none
unfolding lookup
lookup-replicate zero q = refl
lookup-replicate (suc n) q = lookup-replicate n q

-- An empty cache has no entry, and counts none.
pub get-init : (api : PrepareApi) (q : Str) → get init q ≡ none
unfolding init
get-init api q = get-eq-lookup (init-Inv api) q ∙ lookup-replicate 64 q
