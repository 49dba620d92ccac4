-- ===== src/Pool/Lease.antt =====
-- The whole pool: what an operation leaves alone, what a lease changes, and how both combine.
use pqproxy.Base.{
  ℕ, zero, suc, ◌+◌, ◌%◌, ◌≤◌, ◌<◌, ◌≡◌, ◌≢◌, refl, sym, ap, subst, inl, inr, ◌∙◌, Bool, true,
  false, Bool-cases, if_cases, not, ◌||◌, List, if◌then◌else◌, ◌==◌, ==_iff, get_or, set, length,
  length-set, get_or-set_self, get_or-set_ne, arith,
}
use pqproxy.Pool.{
  Conn, Config, Backends, Request, Pool, no_conn, size, conn_at, with_conn, reconnect,
}
use pqproxy.Pool.Checkout.{maintain_from, maintain, is_empty}
use pqproxy.Pool.Logins.{ConnOk, reconnect-Warmed}
use pqproxy.Pool.Conns.{Left, Left-refl}

-- Each connection is in its slot, alive if it is leased, and with a context if it is alive.
abbrev pub Inv : Pool → Type 0
Inv p = (j : ℕ) → j < size p → ConnOk j (conn_at p j)

-- Leased connections are as before, and idle ones are still idle.
pub record Kept (p p' : Pool) : Type 0 where
  pub width : size p' ≡ size p
  pub each : (j : ℕ) → Left (conn_at p j) (conn_at p' j)

-- Connection `i` was idle and is leased and alive; for all others it is as in Kept.
pub record Leased (p p' : Pool) (i : ℕ) : Type 0 where
  pub within : i < size p
  pub width : size p' ≡ size p
  pub was_idle : (conn_at p i).busy ≡ false
  pub alive : (conn_at p' i).alive ≡ true
  pub leased : (conn_at p' i).busy ≡ true
  pub others : (j : ℕ) → j ≢ i → Left (conn_at p j) (conn_at p' j)
  pub cursor : p'.rr_cursor ≡ (i + 1) % size p

pub Kept-refl : (p : Pool) → Kept p p
Kept-refl p = record { width = refl; each = λ j. Left-refl (conn_at p j) }

pub Left-trans : {a b c : Conn} → Left a b → Left b c → Left a c
Left-trans {a} {b} {c} l m = record {
  leased = λ h. m.leased (subst (λ (d : Conn). d.busy ≡ true) (sym (l.leased h)) h) ∙ l.leased h;
  idle = λ h. m.idle (l.idle h);
}

pub Kept-trans : {p q r : Pool} → Kept p q → Kept q r → Kept p r
Kept-trans k l = record { width = l.width ∙ k.width; each = λ j. Left-trans (k.each j) (l.each j) }

-- What is idle after, was idle before.
pub idle_before :
    {p q : Pool} → Kept p q → (i : ℕ) → (conn_at q i).busy ≡ false → (conn_at p i).busy ≡ false
idle_before {p} {q} k i h = elim (Bool-cases (conn_at p i).busy) [
  | inr e ↦ e
  | inl e ↦ absurd (clash (ap (λ (c : Conn). c.busy) ((k.each i).leased e)) e h)
]
  where
    clash : {a b : Bool} → b ≡ a → a ≡ true → b ≡ false → ⊥
    clash e h1 h2 = cc

pub Kept-Leased : {p q r : Pool} {i : ℕ} → Kept p q → Leased q r i → Leased p r i
Kept-Leased {i} k l = record {
  within = omega (arith, k.width, l.within);
  width = l.width ∙ k.width;
  was_idle = idle_before k i l.was_idle;
  alive = l.alive;
  leased = l.leased;
  others = λ j ne. Left-trans (k.each j) (l.others j ne);
  cursor = l.cursor ∙ ap (λ n. (i + 1) % n) k.width;
}

-- A connection after a write: the new one, or the one of before.
pub at_written {ℓ} :
    (P : Conn → Type ℓ) (cs : List Conn) (i j : ℕ) (c : Conn)
    → i < length cs
    → (j ≡ i → P c)
    → (j ≢ i → P (get_or cs j no_conn))
    → P (get_or (set cs i c) j no_conn)
at_written P cs i j c h new old = elim (Bool-cases (j == i)) [
  | inl e ↦
      let same = (==_iff j i).0 e in
      subst P
        (sym (ap (λ k. get_or (set cs i c) k no_conn) same ∙ get_or-set_self cs i c no_conn h))
        (new same)
  | inr e ↦
      let ne : j ≢ i = λ same. clash ((==_iff j i).1 same) e in
      subst P (sym (get_or-set_ne cs c no_conn (λ s. ne (sym s)))) (old ne)
]
  where
    clash : {b : Bool} → b ≡ true → b ≡ false → ⊥
    clash h1 h2 = cc

module _ (p : Pool) (i : ℕ) (h : i < size p) (c : Conn) (asked : List Request) where
  pub written-Inv : Inv p → ConnOk i c → Inv (with_conn p i c asked)
  written-Inv v ok j lt =
      at_written (ConnOk j) p.conns i j c h (λ e. subst (λ k. ConnOk k c) (sym e) ok)
        (λ ne. v j (omega (arith, lt, length-set p.conns i c)))

  pub written-Kept : Left (conn_at p i) c → Kept p (with_conn p i c asked)
  written-Kept l = record {
    width = length-set p.conns i c;
    each = λ j.
        at_written (Left (conn_at p j)) p.conns i j c h
          (λ e. subst (λ k. Left (conn_at p k) c) (sym e) l) (λ ne. Left-refl (conn_at p j));
  }

  pub written-Leased :
      (cursor : ℕ)
      → (conn_at p i).busy ≡ false
      → c.alive ≡ true
      → c.busy ≡ true
      → cursor ≡ (i + 1) % size p
      → Leased p (record (with_conn p i c asked) { rr_cursor = cursor }) i
  written-Leased cursor idle up busy e = record {
    within = h;
    width = length-set p.conns i c;
    was_idle = idle;
    alive = at_written (λ d. d.alive ≡ true) p.conns i i c h (λ s. up) (λ ne. absurd (ne refl));
    leased = at_written (λ d. d.busy ≡ true) p.conns i i c h (λ s. busy) (λ ne. absurd (ne refl));
    others = λ j ne.
        at_written (Left (conn_at p j)) p.conns i j c h (λ s. absurd (ne s))
          (λ ne'. Left-refl (conn_at p j));
    cursor = e;
  }

-- The guard of maintenance.
skip_off : (a b c : Bool) → (a || b || c) ≡ false → a ≡ false
skip_off true b c e = cc
skip_off false b c e = refl

module _ (net : Backends) (cfg : Config) where
  maintain_from-Kept :
      (p : Pool) (i n : ℕ)
      → Inv p
      → i + n ≤ size p
      → Kept p (maintain_from net cfg p i n).1 × Inv (maintain_from net cfg p i n).1
  unfolding maintain_from
  maintain_from-Kept p i zero v h = (Kept-refl p, v)
  maintain_from-Kept p i (suc n) v h =
      let c = conn_at p i in
      let skip = c.busy || c.alive || is_empty c.login_user in
      let after = reconnect net cfg c p.asked in
      let next = with_conn p i after.1 after.2 in
      let (k, v') : Kept p (if skip then p else next) × Inv (if skip then p else next) =
        if_cases (λ q. Kept p q × Inv q) skip (λ e. (Kept-refl p, v))
          λ e.
            let idle = skip_off c.busy c.alive (is_empty c.login_user) e in
            let ok = v i (omega arith) in
            let w = reconnect-Warmed net cfg c p.asked ok idle in
            (
              written-Kept p i (omega arith) after.1 after.2
                  (record { leased = λ b. cc; idle = λ b. w.idle }),
              written-Inv p i (omega arith) after.1 after.2 v w.ok,
            ) in
      let (k', v'') =
        maintain_from-Kept (if skip then p else next) (i + 1) n v' (omega (arith, k.width, h)) in
      (Kept-trans k k', v'')

  -- Maintenance leaves leased connections alone, and leases none.
  pub maintain-Kept :
      (p : Pool) → Inv p → Kept p (maintain net cfg p).1 × Inv (maintain net cfg p).1
  unfolding maintain
  maintain-Kept p v =
      if_cases (λ (r : ℕ × Pool). Kept p r.1 × Inv r.1) (not cfg.auto_reconnect)
        (λ e. (Kept-refl p, v)) (λ e. maintain_from-Kept p 0 (size p) v (omega arith))
