-- ===== src/Pool/Rounds.antt =====
-- The loops of pqproxy_backend_checkout: a round leases one idle connection of the group, or leaves
-- all leases alone.
use native.Mathlib.Nat.{mod-lt}
use pqproxy.Base.{
  ℕ, zero, suc, ◌+◌, ◌%◌, ◌<◌, ◌≡◌, refl, sym, subst, ◌∙◌, Bool, true, false, if_cases, not, ◌||◌,
  ◌&&◌, [], ◌∷◌, Option, none, some, Str, str_eq, str_eq_iff, length, arith,
}
use pqproxy.Pool.{Config, Backends, Pool, size, conn_at, checkout_try}
use pqproxy.Pool.Checkout.{is_empty, Round, found, goes_on, pass, try_at, first_round, group_round}
use pqproxy.Pool.Conns.{checkout_try-Tried}
use pqproxy.Pool.Lease.{
  Inv, Kept, Leased, Kept-trans, Kept-Leased, at_written, written-Inv, written-Kept, written-Leased,
}

-- A fallback is in the pool.
abbrev pub Within : ℕ → Option ℕ → Type 0
Within n none = Unit
Within n (some i) = i < n

-- The connections of a named group are its own.
abbrev pub OwnGroup : Str → Pool → ℕ → Type 0
OwnGroup group p i = is_empty group ≡ false → (conn_at p i).login_user ≡ group

-- What a search from `p` may have done.
abbrev pub RoundOk : Pool → Str → Round → Type 0
RoundOk p group (found i q) = Leased p q i × Inv q × OwnGroup group q i
RoundOk p group (goes_on fb q) = Kept p q × Inv q × Within (size p) fb

some_length : (s : Str) → is_empty s ≡ false → 0 < length s
some_length [] e = cc
some_length (b ∷ s) e = omega arith

pub index_in : (start k n : ℕ) → 0 < n → (start + k) % n < n
index_in start k n h = mod-lt (start + k) h

module _ (net : Backends) (cfg : Config) (group : Str) where
  -- A try on a connection of the group, after a search that took nothing.
  try_at-ok :
      (p q : Pool) (fb : Option ℕ) (i : ℕ)
      → Kept p q
      → Inv q
      → Within (size p) fb
      → i < size q
      → (conn_at q i).login_user ≡ group
      → RoundOk p group (try_at net cfg fb q i)
  unfolding try_at
  try_at-ok p q fb i k v w h own =
      let c = conn_at q i in
      let r = checkout_try net cfg c q.asked in
      let t = checkout_try-Tried net cfg c q.asked (v i h) in
      if_cases (RoundOk p group) r.0
        (λ e.
          let took = t.taken e in
          (
            Kept-Leased k (
                written-Leased q i h r.1 r.2 ((i + 1) % size q) took.was_idle took.alive took.leased
                  refl),
            written-Inv q i h r.1 r.2 v t.ok,
            λ e'.
                at_written (λ d. d.login_user ≡ group) q.conns i i r.1 h
                  (λ s.
                    took.user (subst (λ t. 0 < length t) (sym own) (some_length group e')) ∙ own)
                  (λ ne. absurd (ne refl)),
          ))
        (λ e. (
          Kept-trans k (written-Kept q i h r.1 r.2 (t.left e)),
          written-Inv q i h r.1 r.2 v t.ok,
          w,
        ))

  pub first_round-ok :
      (p q : Pool) (fb : Option ℕ) (i : ℕ)
      → Kept p q
      → Inv q
      → Within (size p) fb
      → i < size q
      → RoundOk p group (first_round net cfg group fb q i)
  unfolding first_round
  first_round-ok p q fb i k v w h =
      let c = conn_at q i in
      if_cases (RoundOk p group) (not c.alive || c.busy) (λ e. (k, v, w))
        λ e.
          if_cases (RoundOk p group) (not (is_empty group) && str_eq c.login_user group)
            (λ e'.
              try_at-ok p q fb i k v w h
                ((str_eq_iff c.login_user group).0 (and_right (not (is_empty group)) _ e')))
            (λ e'. (k, v, fallback fb w))
    where
      and_right : (a b : Bool) → (a && b) ≡ true → b ≡ true
      and_right a b e = ground arith

      fallback :
          (f : Option ℕ)
          → Within (size p) f
          → Within (size p) (elim f [ none ↦ some i | some j ↦ some j ])
      fallback none u = omega (arith, k.width, h)
      fallback (some j) u = u

  pub group_round-ok :
      (p q : Pool) (fb : Option ℕ) (i : ℕ)
      → Kept p q
      → Inv q
      → Within (size p) fb
      → i < size q
      → RoundOk p group (group_round net cfg group fb q i)
  unfolding group_round
  group_round-ok p q fb i k v w h =
      let c = conn_at q i in
      if_cases (RoundOk p group) (c.alive && not c.busy && str_eq c.login_user group)
        (λ e.
          try_at-ok p q fb i k v w h
            ((str_eq_iff c.login_user group).0 (and3 c.alive (not c.busy) _ e)))
        (λ e. (k, v, w))
    where
      and3 : (a b c : Bool) → (a && b && c) ≡ true → c ≡ true
      and3 a b c e = ground arith

pass_on :
    (round : Option ℕ → Pool → ℕ → Round) (group : Str) (start : ℕ) (p : Pool) (k n : ℕ) (r : Round)
    → RoundOk p group r
    → ((fb' : Option ℕ) (p' : Pool)
        → Kept p p'
        → Inv p'
        → Within (size p) fb'
        → RoundOk p group (pass round start fb' p' k n))
    → RoundOk p group
        (elim r [ found i p' ↦ found i p' | goes_on fb' p' ↦ pass round start fb' p' k n ])
pass_on round group start p k n (found i p') ok next = ok
pass_on round group start p k n (goes_on fb' p') (kept, v, w) next = next fb' p' kept v w

-- A search whose rounds are sound is sound.
pub pass-ok :
    (round : Option ℕ → Pool → ℕ → Round) (group : Str) (start : ℕ) (p : Pool)
    (sound : (q : Pool) (fb : Option ℕ) (i : ℕ)
      → Kept p q
      → Inv q
      → Within (size p) fb
      → i < size q
      → RoundOk p group (round fb q i))
    (fb : Option ℕ) (q : Pool) (k n : ℕ)
    → 0 < size p
    → Kept p q
    → Inv q
    → Within (size p) fb
    → RoundOk p group (pass round start fb q k n)
unfolding pass
pass-ok round group start p sound fb q k zero pos kept v w = (kept, v, w)
pass-ok round group start p sound fb q k (suc n) pos kept v w =
    pass_on round group start p (k + 1) n (round fb q ((start + k) % size q))
      (sound q fb _ kept v w (index_in start k (size q) (omega (arith, kept.width, pos))))
      (λ fb' p' kept' v' w'. pass-ok round group start p sound fb' p' (k + 1) n pos kept' v' w')
