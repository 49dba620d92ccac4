-- ===== src/StmtCache/Used.antt =====
-- How many slots are in use, and the entry that a scan of the slots finds.
use pqproxy.Base.{
  ℕ, zero, suc, ◌+◌, ◌≤◌, ◌<◌, ◌≡◌, refl, inl, inr, ◌⊎◌, Bool, true, false, ◌&&◌, List, [], ◌∷◌,
  Option, none, some, Str, str_eq, str_eq_iff, length, set, replicate, if◌then◌else◌, arith,
  Bool-cases,
}
use pqproxy.Pique.{Prepared}
use pqproxy.StmtCache.{Slot, empty_slot, slot_at}

abbrev pub one_if : Bool → ℕ
one_if true = 1
one_if false = 0

abbrev pub used : List Slot → ℕ
used [] = 0
used (s ∷ slots) = one_if s.in_use + used slots

pub used-set :
    (slots : List Slot) (i : ℕ) (s : Slot)
    → i < length slots
    → used (set slots i s) + one_if (slot_at slots i).in_use ≡ used slots + one_if s.in_use
used-set [] i s h = absurd (omega arith)
used-set (x ∷ slots) zero s h = omega arith
used-set (x ∷ slots) (suc i) s h = omega (arith, used-set slots i s)

one_if-le : (b : Bool) → one_if b ≤ 1
one_if-le true = omega arith
one_if-le false = omega arith

pub used-le-length : (slots : List Slot) → used slots ≤ length slots
used-le-length [] = omega arith
used-le-length (s ∷ slots) = omega (arith, used-le-length slots, one_if-le s.in_use)

pub used-lt-length :
    (slots : List Slot) (i : ℕ)
    → i < length slots
    → (slot_at slots i).in_use ≡ false
    → used slots < length slots
used-lt-length [] i h e = absurd (omega arith)
used-lt-length (s ∷ slots) zero h e = rw e (omega (arith, used-le-length slots))
used-lt-length (s ∷ slots) (suc i) h e =
    omega (arith, used-lt-length slots i (omega arith) e, one_if-le s.in_use)

pub used_all :
    (slots : List Slot)
    → ((i : ℕ) → i < length slots → (slot_at slots i).in_use ≡ true)
    → used slots ≡ length slots
used_all [] all = refl
used_all (s ∷ slots) all =
    rw (all 0 (omega arith)) (omega (arith, used_all slots (λ i h. all (suc i) (omega arith))))

pub used-replicate : (n : ℕ) → used (replicate n empty_slot) ≡ 0
used-replicate zero = refl
used-replicate (suc n) = omega (arith, used-replicate n)

-- The first entry in use under a name.
unfoldable pub lookup : Str → List Slot → Option Prepared
lookup q [] = none
lookup q (s ∷ slots) = if s.in_use && str_eq s.stmt.name q then some s.stmt else lookup q slots

-- Slot `i` is in use under the name `q`.
pub record Names (slots : List Slot) (q : Str) (i : ℕ) : Type 0 where
  pub in_use : (slot_at slots i).in_use ≡ true
  pub name : (slot_at slots i).stmt.name ≡ q

pub lookup_cases :
    (q : Str) (slots : List Slot)
    → ((lookup q slots ≡ none) × ((i : ℕ) → ¬ Names slots q i))
      ⊎ ((i : ℕ) × Names slots q i × (lookup q slots ≡ some (slot_at slots i).stmt))
unfolding lookup
lookup_cases q [] = inl (refl, λ i m. cc (m.in_use))
lookup_cases q (s ∷ slots) = elim (Bool-cases (s.in_use && str_eq s.stmt.name q)) [
  | inl e ↦
      inr
        (0, record { in_use = ground arith; name = ground (arith, str_eq_iff s.stmt.name q) }, rw e)
  | inr e ↦ elim (lookup_cases q slots) [
    | inl (absent, others) ↦ inl (
      rw e absent,
      elim [
        | zero ↦ λ m. ground (arith, m.in_use, m.name, str_eq_iff s.stmt.name q)
        | suc i ↦ λ m. others i (record { in_use = m.in_use; name = m.name })
      ],
    )
    | inr (i, m, found) ↦ inr (suc i, record { in_use = m.in_use; name = m.name }, rw e found)
  ]
]

-- No two slots are in use under one name.
abbrev pub Unique : List Slot → Type 0
Unique slots = (q : Str) (i j : ℕ) → Names slots q i → Names slots q j → i ≡ j

pub Names-cons :
    {s : Slot} {slots : List Slot} {q : Str} {i : ℕ} → Names slots q i → Names (s ∷ slots) q (suc i)
Names-cons m = record { in_use = m.in_use; name = m.name }

pub Unique-tail : {s : Slot} {slots : List Slot} → Unique (s ∷ slots) → Unique slots
Unique-tail u q i j a b = omega (arith, u q (suc i) (suc j) (Names-cons a) (Names-cons b))

-- The first slot shares its name with no later one.
pub Unique-head :
    (s : Slot) (slots : List Slot) (q : Str) (i : ℕ)
    → Unique (s ∷ slots)
    → s.in_use ≡ true
    → str_eq s.stmt.name q ≡ true
    → ¬ Names slots q i
Unique-head s slots q i u used named m = absurd (
    omega (
      arith,
      u q 0 (suc i) (record { in_use = used; name = (str_eq_iff s.stmt.name q).0 named })
          (Names-cons m),
    ))

pub lookup_tail :
    (s : Slot) (slots : List Slot) (q : Str)
    → Unique (s ∷ slots)
    → s.in_use ≡ true
    → str_eq s.stmt.name q ≡ true
    → lookup q slots ≡ none
lookup_tail s slots q u used named = elim (lookup_cases q slots) [
  | inl (absent, _) ↦ absent
  | inr (j, m, _) ↦ absurd (Unique-head s slots q j u used named m)
]

apart :
    (s : Slot) (slots : List Slot) (q : Str) (i : ℕ)
    → Unique (s ∷ slots)
    → s.in_use ≡ true
    → str_eq s.stmt.name q ≡ true
    → (slot_at slots i).in_use ≡ true
    → str_eq (slot_at slots i).stmt.name q ≡ true
    → ⊥
apart s slots q i u used named e n =
    Unique-head s slots q i u used named
      (record { in_use = e; name = (str_eq_iff (slot_at slots i).stmt.name q).0 n })

pub lookup-set_empty :
    (q : Str) (slots : List Slot) (i : ℕ)
    → i < length slots
    → Unique slots
    → (slot_at slots i).in_use ≡ true
    → lookup q (set slots i empty_slot)
      ≡ (if str_eq (slot_at slots i).stmt.name q then none else lookup q slots)
unfolding lookup
lookup-set_empty q [] i h u e = absurd (omega arith)
lookup-set_empty q (s ∷ slots) zero h u e = ground (arith, lookup_tail s slots q u e)
lookup-set_empty q (s ∷ slots) (suc i) h u e =
    ground (arith, lookup-set_empty q slots i (omega arith) (Unique-tail u) e, apart s slots q i u)

-- A scan for `q` does not see a write that replaces one entry not under `q` by another.
pub lookup-set :
    (q : Str) (slots : List Slot) (i : ℕ) (s : Slot)
    → i < length slots
    → ((slot_at slots i).in_use && str_eq (slot_at slots i).stmt.name q) ≡ false
    → (s.in_use && str_eq s.stmt.name q) ≡ false
    → lookup q (set slots i s) ≡ lookup q slots
unfolding lookup
lookup-set q [] i s h old new = absurd (omega arith)
lookup-set q (x ∷ slots) zero s h old new = rw (old, new)
lookup-set q (x ∷ slots) (suc i) s h old new =
    ground (arith, lookup-set q slots i s (omega arith) old new)
