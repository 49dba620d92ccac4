-- ===== src/Loop/Slots.antt =====
-- The slots of the event loop: pack_ud and unpack_ud, and alloc_conn.
use pqproxy.Base.{
  ℕ, zero, suc, ◌+◌, ◌*◌, ◌/◌, ◌%◌, ◌^◌, ◌≤◌, ◌<◌, ◌≡◌, refl, sym, ap₂, subst, inl, inr, Bool-cases,
  ==_iff, ◌==◌, Bool, true, false, Option, none, some, if◌then◌else◌, arith,
}
use pqproxy.Loop.{Client}
use pqproxy.Loop.Schedule.{is_free}
use pqproxy.Loop.Serving.{free_from}
use pqproxy.Loop.Dispatch.{pack_ud, unpack_ud}

-- unpack_ud gives back the operation and the slot, each below 2 ^ 32, that pack_ud was given.
pub unpack_ud-pack_ud :
    (op slot : ℕ) → op < 2 ^ 32 → slot < 2 ^ 32 → unpack_ud (pack_ud op slot) ≡ (op, slot)
unfolding pack_ud unpack_ud
unpack_ud-pack_ud op slot h k =
    let x : ((op % 2 ^ 32) * 2 ^ 32 + slot % 2 ^ 32) / 2 ^ 32 % 2 ^ 32 ≡ op = omega arith in
    let y : ((op % 2 ^ 32) * 2 ^ 32 + slot % 2 ^ 32) % 2 ^ 32 ≡ slot = omega arith in
    ap₂ (λ (a b : ℕ). (a, b)) x y

-- What alloc_conn finds between `k` and `k + n`: the first free slot, or none.
pub data Found (conns : ℕ → Client) (k n : ℕ) : Option ℕ → Type 0 where
  all_used : ((j : ℕ) → k ≤ j → j < k + n → is_free (conns j).state ≡ false) → Found conns k n none
  first_free :
      {i : ℕ}
      → k ≤ i
      → i < k + n
      → is_free (conns i).state ≡ true
      → ((j : ℕ) → k ≤ j → j < i → is_free (conns j).state ≡ false)
      → Found conns k n (some i)

-- The search of alloc_conn over a range of slots gives the first free slot of the range, or none if
-- all of them are in use.
pub free_from-Found : (conns : ℕ → Client) (k n : ℕ) → Found conns k n (free_from conns k n)
unfolding free_from
free_from-Found conns k zero = all_used (λ j h1 h2. absurd (omega arith))
free_from-Found conns k (suc n) =
    at (is_free (conns k).state) refl (free_from-Found conns (k + 1) n)
  where
    from_k :
        (j : ℕ)
        → k ≤ j
        → (k + 1 ≤ j → is_free (conns j).state ≡ false)
        → is_free (conns k).state ≡ false
        → is_free (conns j).state ≡ false
    from_k j h next e = elim (Bool-cases (j == k)) [
      | inl s ↦ subst (λ i. is_free (conns i).state ≡ false) (sym ((==_iff j k).0 s)) e
      | inr s ↦ next (ground (arith, h, s))
    ]

    at :
        (t : Bool)
        → is_free (conns k).state ≡ t
        → Found conns (k + 1) n (free_from conns (k + 1) n)
        → Found conns k (suc n) (if t then some k else free_from conns (k + 1) n)
    at true e rest = first_free (omega arith) (omega arith) e (λ j h1 h2. absurd (omega arith))
    at false e rest = go rest
      where
        go : {o : Option ℕ} → Found conns (k + 1) n o → Found conns k (suc n) o
        go (all_used u) = all_used (λ j h1 h2. from_k j h1 (λ g. u j g (omega arith)) e)
        go (first_free h1 h2 f u) =
            first_free (omega arith) (omega arith) f (λ j g1 g2. from_k j g1 (λ g. u j g g2) e)
