-- ===== src/StmtCache/Written.antt =====
-- The table after a write to the slot where a search for the written name ended.
use pqproxy.Base.{
  ℕ, ◌+◌, ◌<◌, ◌≡◌, ◌≢◌, refl, sym, ap, inl, inr, ◌⊎◌, true, false, ◌∙◌, some, Str, length, set,
  length-set, ◌&&◌, str_eq, str_eq_iff, arith, ℕ_discrete, get_or-set_self, get_or-set_ne,
}
use pqproxy.Pique.{PrepareApi}
use pqproxy.StmtCache.{
  Slot, Cache, vacant, holds, empty_slot, slot_at, search, max_cached_stmts, get,
}
use pqproxy.StmtCache.Probe.{probe-set_vacant, probe-set_other, probe-set_same}
use pqproxy.StmtCache.Used.{one_if, lookup-set, used-set, Names}
use pqproxy.StmtCache.Invariant.{Inv, EntryFits, search-vacant, search-Names, get-eq-lookup}

abbrev pub write_slot : Cache → ℕ → Slot → ℕ → Cache
write_slot c i s k = record { slots = set c.slots i s; count = k }

-- Slot `i` overwritten by an entry in use, where the search for that entry's name ended.
module _ {api : PrepareApi} {c : Cache} (inv : Inv api c) (i : ℕ) (s : Slot) (k : ℕ)
    (within : i < max_cached_stmts) (filled : s.in_use ≡ true) (fit : EntryFits api s.stmt) where
  abbrev written : Cache
  written = write_slot c i s k

  inside : i < length c.slots
  inside = rw inv.width within

  at_self : slot_at written.slots i ≡ s
  at_self = get_or-set_self c.slots i s empty_slot inside

  at_other : (j : ℕ) → i ≢ j → slot_at written.slots j ≡ slot_at c.slots j
  at_other j ne = get_or-set_ne c.slots s empty_slot ne

  written-fits :
      (j : ℕ)
      → (slot_at written.slots j).in_use ≡ true
      → EntryFits api (slot_at written.slots j).stmt
  written-fits j e = elim (ℕ_discrete i j) [
    | yes p ↦ rw (← p, at_self) fit
    | no ne ↦ rw (at_other j ne) (inv.fits j (rw (at_other j ne) at e))
  ]

  pub search_new :
      search c.slots s.stmt.name ≡ vacant i → search (set c.slots i s) s.stmt.name ≡ holds i
  unfolding search
  search_new e = probe-set_vacant c.slots i s inside _ s.stmt.name 64 0 filled refl e

  search_kept :
      (q : Str) (j : ℕ)
      → (slot_at c.slots i).in_use ≡ false
      → search c.slots q ≡ holds j
      → search (set c.slots i s) q ≡ holds j
  unfolding search
  search_kept q j free e = probe-set_other c.slots i s inside _ q 64 0 j free e

  pub search_same :
      (q : Str) → Names c.slots s.stmt.name i → search (set c.slots i s) q ≡ search c.slots q
  unfolding search
  search_same q m = probe-set_same c.slots i s inside _ q 64 0 m.in_use filled (sym m.name)

  pub written-Inv_new :
      search c.slots s.stmt.name ≡ vacant i → k ≡ c.count + 1 → Inv api (write_slot c i s k)
  written-Inv_new e counts = record {
    width = length-set c.slots i s ∙ inv.width;
    counted = omega (
      arith,
      used-set c.slots i s inside,
      inv.counted,
      ap one_if (search-vacant c.slots _ i e).1,
      ap one_if filled,
    );
    reach = λ j used. elim (ℕ_discrete i j) [
      | yes p ↦ rw (← p, at_self) (search_new e)
      | no ne ↦ rw (at_other j ne) (
          search_kept _ j (search-vacant c.slots _ i e).1
            (inv.reach j (rw (at_other j ne) at used)))
    ];
    fits = written-fits;
  }

  pub written-Inv_known : Names c.slots s.stmt.name i → k ≡ c.count → Inv api (write_slot c i s k)
  written-Inv_known m counts = record {
    width = length-set c.slots i s ∙ inv.width;
    counted =
        omega
          (arith, used-set c.slots i s inside, inv.counted, ap one_if m.in_use, ap one_if filled);
    reach = λ j used. elim (ℕ_discrete i j) [
      | yes p ↦ rw (← p, at_self) (search_same _ m ∙ search-Names inv s.stmt.name i m)
      | no ne ↦ rw (at_other j ne) (search_same _ m ∙ inv.reach j (rw (at_other j ne) at used))
    ];
    fits = written-fits;
  }

  -- Reading the written name gives the written entry.
  pub get-written_self :
      search (set c.slots i s) s.stmt.name ≡ holds i
      → get (write_slot c i s k) s.stmt.name ≡ some s.stmt
  unfolding get
  get-written_self e = rw (e, at_self, get)

  other_old :
      (q : Str)
      → s.stmt.name ≢ q
      → ((slot_at c.slots i).in_use ≡ false) ⊎ ((slot_at c.slots i).stmt.name ≡ s.stmt.name)
      → ((slot_at c.slots i).in_use && str_eq (slot_at c.slots i).stmt.name q) ≡ false
  other_old q ne (inl free) = rw free
  other_old q ne (inr same) = rw same (ground (arith, str_eq_iff s.stmt.name q))

  -- Any other name reads as before.
  pub get-written_other :
      (q : Str)
      → Inv api (write_slot c i s k)
      → s.stmt.name ≢ q
      → ((slot_at c.slots i).in_use ≡ false) ⊎ ((slot_at c.slots i).stmt.name ≡ s.stmt.name)
      → get (write_slot c i s k) q ≡ get c q
  get-written_other q inv' ne old =
      get-eq-lookup inv' q
      ∙ lookup-set q c.slots i s inside (other_old q ne old)
          (ground (arith, str_eq_iff s.stmt.name q))
      ∙ sym (get-eq-lookup inv q)
