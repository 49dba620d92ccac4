-- ===== src/Pool/Conns.antt =====
-- One connection: one that is taken is alive, idle before and leased after, and one that is leased
-- is left alone.
use pqproxy.Base.{
  ℕ, ◌<◌, ◌≡◌, refl, sym, subst, if_cases, guard_off, inl, inr, ◌⊎◌, ◌∙◌, Bool, true, false,
  Bool-cases, ◌||◌, not, List, length, arith,
}
use pqproxy.Pool.{
  Conn, Config, Request, Backends, conn_teardown_io, Done, reconnect, health_check, try_again,
  checkout_try,
}
use pqproxy.Pool.Logins.{ConnOk, own_user, reconnect-Warmed}

-- A connection that was free is leased, as the same user.
pub record Took (c c' : Conn) : Type 0 where
  pub was_alive : c.alive ≡ true
  pub was_idle : c.busy ≡ false
  pub alive : c'.alive ≡ true
  pub leased : c'.busy ≡ true
  pub user : 0 < length c.login_user → c'.login_user ≡ c.login_user

-- A leased connection is as before, and an idle one is still idle.
pub record Left (c c' : Conn) : Type 0 where
  pub leased : c.busy ≡ true → c' ≡ c
  pub idle : c.busy ≡ false → c'.busy ≡ false

pub record Tried (i : ℕ) (c : Conn) (r : Bool × Conn) : Type 0 where
  pub ok : ConnOk i r.1
  pub taken : r.0 ≡ true → Took c r.1
  pub left : r.0 ≡ false → Left c r.1

pub Left-refl : (c : Conn) → Left c c
Left-refl c = record { leased = λ b. refl; idle = λ b. b }

not_taken : (i : ℕ) (c c' : Conn) → ConnOk i c' → Left c c' → Tried i c (false, c')
not_taken i c c' ok l = record { ok = ok; taken = λ b. cc; left = λ b. l }

pub free_ok : {i : ℕ} (c : Conn) → ConnOk i c → ConnOk i (record c { busy = false })
free_ok c ok = record { at = ok.at; lives = λ b. cc; wired = ok.wired; named = ok.named }

pub taken_ok :
    {i : ℕ} (c : Conn) → ConnOk i c → c.alive ≡ true → ConnOk i (record c { busy = true })
taken_ok c ok a = record { at = ok.at; lives = λ b. a; wired = ok.wired; named = ok.named }

down_ok : {i : ℕ} (c : Conn) → ConnOk i c → ConnOk i (conn_teardown_io (record c { busy = false }))
unfolding conn_teardown_io
down_ok c ok = record { at = ok.at; lives = λ b. cc; wired = λ b. cc; named = ok.named }

module _ (net : Backends) (cfg : Config) {i : ℕ} (c : Conn) (asked : List Request) (ok : ConnOk i c)
    (up : c.alive ≡ true) (idle : c.busy ≡ false) where
  stays : (c' : Conn) → c'.busy ≡ false → Left c c'
  stays c' e = record { leased = λ b. cc; idle = λ b. e }

  just_taken : Tried i c (true, record c { busy = true })
  just_taken = record {
    ok = taken_ok c ok up;
    taken = λ b. record {
      was_alive = up;
      was_idle = idle;
      alive = up;
      leased = refl;
      user = λ h. refl;
    };
    left = λ b. cc;
  }

  -- The connection as the failed probe leaves it.
  abbrev dropped : Conn
  dropped = conn_teardown_io (record c { busy = true })

  dropped_ok : ConnOk i (record dropped { busy = false })
  unfolding conn_teardown_io
  dropped_ok = down_ok c ok

  abbrev Good : Done → Type 0
  Good r = Tried i c (r.0, r.1)

  try_again-Tried : (asked' : List Request) → Good (try_again net cfg dropped asked')
  unfolding try_again conn_teardown_io
  try_again-Tried asked' =
      let idle_one = record dropped { busy = false } in
      let w = reconnect-Warmed net cfg idle_one asked' dropped_ok refl in
      if_cases Good (not cfg.auto_reconnect)
        (λ off. not_taken i c idle_one dropped_ok (stays idle_one refl))
        λ on.
          if_cases Good (reconnect net cfg idle_one asked').0
            (λ e. record {
              ok = taken_ok _ w.ok (w.alive ∙ e);
              taken = λ b. record {
                was_alive = up;
                was_idle = idle;
                alive = w.alive ∙ e;
                leased = refl;
                user = λ h. w.login e ∙ own_user net cfg idle_one asked' dropped_ok h;
              };
              left = λ b. cc;
            })
            (λ e. not_taken i c (reconnect net cfg idle_one asked').1 w.ok (stays _ w.idle))

  -- What a probe leaves.
  abbrev Probed : Done → Type 0
  Probed r = ((r.0 ≡ true) × (r.1 ≡ record c { busy = true })) ⊎ ((r.0 ≡ false) × (r.1 ≡ dropped))

  health_check-Probed : Probed (health_check net (record c { busy = true }) asked)
  unfolding health_check
  health_check-Probed =
      if_cases Probed (not c.alive || not c.wire) (λ e. absurd (bool_clash up (ok.wired up) e))
        λ e.
          if_cases Probed (net.healthy asked c.slot) (λ h. inl (refl, refl)) (λ h. inr (refl, refl))
    where
      bool_clash : {a b : Bool} → a ≡ true → b ≡ true → (not a || not b) ≡ true → ⊥
      bool_clash ea eb e = ground arith

  checkout_try-free : Good (checkout_try net cfg c asked)
  unfolding checkout_try
  checkout_try-free =
      let h = health_check net (record c { busy = true }) asked in
      if_cases Good (not c.alive || c.busy) (λ e. absurd (taken_clash up idle e))
        λ e.
          if_cases Good (not cfg.health_check_on_checkout) (λ off. just_taken)
            λ on. elim health_check-Probed [
              | inl (t, same) ↦
                  if_cases Good h.0 (λ b. subst (λ d. Tried i c (true, d)) (sym same) just_taken)
                    (λ b. cc)
              | inr (f, same) ↦
                  if_cases Good h.0 (λ b. cc)
                    (λ b.
                      subst (λ d. Good (try_again net cfg d h.2)) (sym same) (try_again-Tried h.2))
            ]
    where
      taken_clash : {a b : Bool} → a ≡ true → b ≡ false → (not a || b) ≡ true → ⊥
      taken_clash ea eb e = ground arith

-- checkout_try takes the connection or leaves it, and leaves one that is leased as it is.
pub checkout_try-Tried :
    (net : Backends) (cfg : Config) {i : ℕ} (c : Conn) (asked : List Request)
    → ConnOk i c
    → Tried i c ((checkout_try net cfg c asked).0, (checkout_try net cfg c asked).1)
unfolding checkout_try
checkout_try-Tried net cfg {i} c asked ok = elim (Bool-cases (not c.alive || c.busy)) [
  | inl e ↦
      if_cases (λ (r : Done). Tried i c (r.0, r.1)) (not c.alive || c.busy)
        (λ h. not_taken i c c ok (Left-refl c)) (λ h. absurd (cc (h, e)))
  | inr e ↦ let (up, idle) = guard_off e in checkout_try-free net cfg c asked ok up idle
]
