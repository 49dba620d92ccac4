-- ===== src/Pool/Search.antt =====
-- pqproxy_backend_checkout leases one idle connection, or none, and keeps the groups apart.
use pqproxy.Base.{
  ℕ, zero, suc, ◌+◌, ◌%◌, ◌≤◌, ◌<◌, ◌≡◌, refl, ap, ◌∙◌, Bool, true, false, if_cases, not, ◌&&◌,
  Option, none, some, Str, if◌then◌else◌, ◌==◌, length, take_all, arith,
}
use pqproxy.Pool.{Conn, Config, Backends, Pool, size, conn_at, checkout_try, warm_one}
use pqproxy.Pool.Checkout.{
  maintain, is_empty, Round, found, goes_on, pass, first_round, group_round, lazy_login, lazy_from,
  by_group, by_fallback, search_conns, checkout,
}
use pqproxy.Pool.Logins.{warm_one-Warmed}
use pqproxy.Pool.Conns.{taken_ok, checkout_try-Tried}
use pqproxy.Pool.Lease.{
  Inv, Kept, Leased, Kept-refl, Kept-trans, Kept-Leased, at_written, written-Inv, written-Kept,
  written-Leased, maintain-Kept,
}
use pqproxy.Pool.Rounds.{
  Within, RoundOk, OwnGroup, index_in, first_round-ok, group_round-ok, pass-ok,
}

-- What a checkout may have done.
abbrev pub Outcome : Config → Pool → Str → Option ℕ × Pool → Type 0
Outcome cfg p group (none, q) = Kept p q × Inv q
Outcome cfg p group (some i, q) =
    Leased p q i × Inv q × (cfg.use_group_as_user ≡ true → OwnGroup group q i)

module _ (net : Backends) (cfg : Config) (group : Str) where
  lazy_login-ok :
      (p q : Pool) (i : ℕ)
      → Kept p q
      → Inv q
      → i < size q
      → (conn_at q i).alive ≡ false
      → length group ≤ 127
      → Outcome cfg p group (lazy_login net q group i)
  unfolding lazy_login
  lazy_login-ok p q i k v h down short =
      let c = conn_at q i in
      let ok = v i h in
      let idle = not_leased c.busy c.alive ok.lives down in
      let r = warm_one net c group q.asked in
      let w = warm_one-Warmed net cfg c q.asked ok group idle in
      if_cases (Outcome cfg p group) r.0
        (λ e.
          let taken : Conn = record r.1 { busy = true } in
          let up : r.1.alive ≡ true = w.alive ∙ e in
          (
            Kept-Leased k (written-Leased q i h taken r.2 ((i + 1) % size q) idle up refl refl),
            written-Inv q i h taken r.2 v (taken_ok r.1 w.ok up),
            λ u e'.
                at_written (λ d. d.login_user ≡ group) q.conns i i taken h
                  (λ s. w.login e ∙ take_all 127 group short) (λ ne. absurd (ne refl)),
          ))
        (λ e. (
          Kept-trans k (
              written-Kept q i h r.1 r.2
                (record { leased = λ b. absurd (both b idle); idle = λ b. w.idle })),
          written-Inv q i h r.1 r.2 v w.ok,
        ))
    where
      both : {a : Bool} → a ≡ true → a ≡ false → ⊥
      both h1 h2 = cc

      not_leased : (b a : Bool) → (b ≡ true → a ≡ true) → a ≡ false → b ≡ false
      not_leased true a l d = cc (l refl, d)
      not_leased false a l d = refl

  lazy_from-ok :
      (p q : Pool) (start k n : ℕ)
      → 0 < size p
      → Kept p q
      → Inv q
      → length group ≤ 127
      → Outcome cfg p group (lazy_from net q group start k n)
  unfolding lazy_from
  lazy_from-ok p q start k zero pos kept v short = (kept, v)
  lazy_from-ok p q start k (suc n) pos kept v short =
      let i = (start + k) % size q in
      if_cases (Outcome cfg p group) (not (conn_at q i).alive)
        (λ e.
          lazy_login-ok p q i kept v (index_in start k (size q) (omega (arith, kept.width, pos)))
            (not_true e) short)
        (λ e. lazy_from-ok p q start (k + 1) n pos kept v short)
    where
      not_true : {a : Bool} → not a ≡ true → a ≡ false
      not_true {a = false} e = refl
      not_true {a = true} e = cc

  by_group-ok :
      (p q : Pool) (start : ℕ)
      → 0 < size p
      → Kept p q
      → Inv q
      → length group ≤ 127
      → Outcome cfg p group (by_group net cfg group start q)
  unfolding by_group
  by_group-ok p q start pos kept v short =
      after (pass (group_round net cfg group) start none q 0 (size q)) (
        pass-ok (group_round net cfg group) group start p (group_round-ok net cfg group p) none q 0
          (size q) pos kept v tt)
    where
      after :
          (r : Round)
          → RoundOk p group r
          → Outcome cfg p group (elim r [
            | found i p' ↦ (some i, p')
            | goes_on fb p' ↦
                if cfg.lazy_connect then lazy_from net p' group start 0 (size p') else (none, p')
          ])
      after (found i p') (l, v', own) = (l, v', λ u. own)
      after (goes_on fb p') (kept', v', w) =
          if_cases (Outcome cfg p group) cfg.lazy_connect
            (λ e. lazy_from-ok p p' start 0 (size p') pos kept' v' short) (λ e. (kept', v'))

  by_fallback-ok :
      (p q : Pool) (fb : Option ℕ)
      → (cfg.use_group_as_user && not (is_empty group)) ≡ false
      → Kept p q
      → Inv q
      → Within (size p) fb
      → Outcome cfg p group (by_fallback net cfg fb q)
  unfolding by_fallback
  by_fallback-ok p q none off kept v w = (kept, v)
  by_fallback-ok p q (some i) off kept v w =
      let c = conn_at q i in
      let h : i < size q = omega (arith, kept.width, w) in
      let r = checkout_try net cfg c q.asked in
      let t = checkout_try-Tried net cfg c q.asked (v i h) in
      if_cases (Outcome cfg p group) r.0
        (λ e.
          let took = t.taken e in
          (
            Kept-Leased kept (
                written-Leased q i h r.1 r.2 ((r.1.slot + 1) % size q) took.was_idle took.alive
                  took.leased (ap (λ s. (s + 1) % size q) t.ok.at)),
            written-Inv q i h r.1 r.2 v t.ok,
            λ u e'. absurd (never cfg.use_group_as_user (is_empty group) off u e'),
          ))
        (λ e. (
          Kept-trans kept (written-Kept q i h r.1 r.2 (t.left e)),
          written-Inv q i h r.1 r.2 v t.ok,
        ))
    where
      never : (a b : Bool) → (a && not b) ≡ false → a ≡ true → b ≡ false → ⊥
      never a b e ea eb = ground arith

  search_conns-ok :
      (p q : Pool)
      → 0 < size p
      → Kept p q
      → Inv q
      → length group ≤ 127
      → Outcome cfg p group (search_conns net cfg group q)
  unfolding search_conns
  search_conns-ok p q pos kept v short =
      after (pass (first_round net cfg group) (q.rr_cursor % size q) none q 0 (size q)) (
        pass-ok (first_round net cfg group) group (q.rr_cursor % size q) p
          (first_round-ok net cfg group p) none q 0 (size q) pos kept v tt)
    where
      after :
          (r : Round)
          → RoundOk p group r
          → Outcome cfg p group (elim r [
            | found i p' ↦ (some i, p')
            | goes_on fb p' ↦
                if cfg.use_group_as_user && not (is_empty group)
                then by_group net cfg group (q.rr_cursor % size q) p'
                else by_fallback net cfg fb p'
          ])
      after (found i p') (l, v', own) = (l, v', λ u. own)
      after (goes_on fb p') (kept', v', w) =
          if_cases (Outcome cfg p group) (cfg.use_group_as_user && not (is_empty group))
            (λ e. by_group-ok p p' (q.rr_cursor % size q) pos kept' v' short)
            (λ e. by_fallback-ok p p' fb e kept' v' w)

  -- A checkout from a pool in order either takes nothing, leaves every leased connection as it was
  -- and every idle one idle, or it leases one connection that was idle and is alive, moves the
  -- cursor behind it and leaves the others' leases as they were; the pool stays in order, and with
  -- logins per group the connection is the group's own.
  pub checkout-Outcome :
      (p : Pool) → Inv p → length group ≤ 127 → Outcome cfg p group (checkout net cfg p group)
  unfolding checkout
  checkout-Outcome p v short =
      if_cases (Outcome cfg p group) (size p == 0) (λ e. (Kept-refl p, v))
        λ e.
          let q = if cfg.auto_reconnect then (maintain net cfg p).1 else p in
          let (kept, v') : Kept p q × Inv q =
            if_cases (λ (r : Pool). Kept p r × Inv r) cfg.auto_reconnect
              (λ on. maintain-Kept net cfg p v) (λ off. (Kept-refl p, v)) in
          search_conns-ok p q (ground (arith, e)) kept v' short
