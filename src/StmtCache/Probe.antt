-- ===== src/StmtCache/Probe.antt =====
-- The probe loop: what each way to end says of the table, and how a write changes later probes.
use pqproxy.Base.{
  ℕ, zero, suc, ◌+◌, ◌%◌, ◌≤◌, ◌<◌, ◌≡◌, refl, true, false, List, Str, str_eq_iff, length, set,
  get_or-set_self, get_or-set_ne, ℕ_discrete, arith,
}
use pqproxy.StmtCache.{Slot, vacant, holds, exhausted, slot_at, empty_slot, probe, max_cached_stmts}

-- A probe that ends at a slot ends inside the table, at a slot in use with the name.
pub probe-holds :
    (slots : List Slot) (h : ℕ) (name : Str) (n k i : ℕ)
    → probe slots h name n k ≡ holds i
    → (i < max_cached_stmts)
      × ((slot_at slots i).in_use ≡ true)
      × ((slot_at slots i).stmt.name ≡ name)
unfolding probe
probe-holds slots h name zero k i e = cc
probe-holds slots h name (suc n) k i e = ground (
  arith,
  probe-holds slots h name n (k + 1) i,
  str_eq_iff (slot_at slots ((h + k) % max_cached_stmts)).stmt.name name,
)

pub probe-vacant :
    (slots : List Slot) (h : ℕ) (name : Str) (n k i : ℕ)
    → probe slots h name n k ≡ vacant i
    → (i < max_cached_stmts) × ((slot_at slots i).in_use ≡ false)
unfolding probe
probe-vacant slots h name zero k i e = cc
probe-vacant slots h name (suc n) k i e = ground (arith, probe-vacant slots h name n (k + 1) i)

-- After all the rounds, every slot on the way is in use, and under another name.
pub probe-exhausted :
    (slots : List Slot) (h : ℕ) (name : Str) (n k j : ℕ)
    → probe slots h name n k ≡ exhausted
    → k ≤ j
    → j < k + n
    → (slot_at slots ((h + j) % max_cached_stmts)).in_use ≡ true
unfolding probe
probe-exhausted slots h name zero k j e lo hi = absurd (omega arith)
probe-exhausted slots h name (suc n) k j e lo hi = elim (ℕ_discrete k j) [
  | yes p ↦ ground arith
  | no p ↦ ground (arith, probe-exhausted slots h name n (k + 1) j)
]

module _ (slots : List Slot) (i : ℕ) (s : Slot) (inside : i < length slots) where
  -- Filling the empty slot where the probe ended makes the name found there.
  pub probe-set_vacant :
      (h : ℕ) (name : Str) (n k : ℕ)
      → s.in_use ≡ true
      → s.stmt.name ≡ name
      → probe slots h name n k ≡ vacant i
      → probe (set slots i s) h name n k ≡ holds i
  unfolding probe
  probe-set_vacant h name zero k used named e = cc
  probe-set_vacant h name (suc n) k used named e =
      elim (ℕ_discrete i ((h + k) % max_cached_stmts)) [
        | yes p ↦
            ground (arith, get_or-set_self slots i s empty_slot inside, str_eq_iff s.stmt.name name)
        | no p ↦
            ground (arith, get_or-set_ne slots s empty_slot p, probe-set_vacant h name n (k + 1))
      ]

  -- A name that is found is still found after an empty slot is filled.
  pub probe-set_other :
      (h : ℕ) (name : Str) (n k j : ℕ)
      → (slot_at slots i).in_use ≡ false
      → probe slots h name n k ≡ holds j
      → probe (set slots i s) h name n k ≡ holds j
  unfolding probe
  probe-set_other h name zero k j free e = cc
  probe-set_other h name (suc n) k j free e = elim (ℕ_discrete i ((h + k) % max_cached_stmts)) [
    | yes p ↦ ground arith
    | no p ↦ ground (arith, get_or-set_ne slots s empty_slot p, probe-set_other h name n (k + 1) j)
  ]

  -- Overwriting an entry under its own name changes no probe.
  pub probe-set_same :
      (h : ℕ) (name : Str) (n k : ℕ)
      → (slot_at slots i).in_use ≡ true
      → s.in_use ≡ true
      → s.stmt.name ≡ (slot_at slots i).stmt.name
      → probe (set slots i s) h name n k ≡ probe slots h name n k
  unfolding probe
  probe-set_same h name zero k used used' named = refl
  probe-set_same h name (suc n) k used used' named =
      elim (ℕ_discrete i ((h + k) % max_cached_stmts)) [
        | yes p ↦
            ground
              (arith, get_or-set_self slots i s empty_slot inside, probe-set_same h name n (k + 1))
        | no p ↦ ground (arith, get_or-set_ne slots s empty_slot p, probe-set_same h name n (k + 1))
      ]
