-- ===== src/Pool/Logins.antt =====
-- One connection: how a login, a reconnect and a failure leave it.
use pqproxy.Base.{
  if◌then◌else◌, ℕ, ◌≤◌, ◌<◌, ◌≡◌, refl, ap, inl, inr, ◌∙◌, Bool, true, false, Bool-cases, List, [],
  ◌∷◌, Str, strncpy, length, length-take, take_all, arith,
}
use pqproxy.Pool.{
  logs_in, Conn, Config, Login, unreachable, no_wire, rejected, logged_in, Request, Backends,
  conn_teardown_io, Done, warmed, warm_one, reconnect_user, reconnect,
}

-- A connection in slot `i`: what is leased is alive, and what is alive has a wire context.
pub record ConnOk (i : ℕ) (c : Conn) : Type 0 where
  pub at : c.slot ≡ i
  pub lives : c.busy ≡ true → c.alive ≡ true
  pub wired : c.alive ≡ true → c.wire ≡ true
  pub named : length c.login_user ≤ 127

short : (s : Str) → length (strncpy 127 s) ≤ 127
short s = omega (arith, length-take 127 s)

-- What a login of an idle connection as `user` gives.
pub record Warmed (i : ℕ) (user : Str) (r : Bool × Conn) : Type 0 where
  pub ok : ConnOk i r.1
  pub idle : r.1.busy ≡ false
  pub alive : r.1.alive ≡ r.0
  pub login : r.0 ≡ true → r.1.login_user ≡ strncpy 127 user

warmed-Warmed :
    (i : ℕ) (c : Conn) (user : Str) (a : Login)
    → ConnOk i c
    → c.busy ≡ false
    → Warmed i user (warmed (conn_teardown_io c) user a)
unfolding warmed conn_teardown_io
warmed-Warmed i c user unreachable ok idle = record {
  ok = record { at = ok.at; lives = λ b. cc; wired = λ b. cc; named = ok.named };
  idle = idle;
  alive = refl;
  login = λ b. cc;
}
warmed-Warmed i c user no_wire ok idle = record {
  ok = record { at = ok.at; lives = λ b. cc; wired = λ b. cc; named = ok.named };
  idle = idle;
  alive = refl;
  login = λ b. cc;
}
warmed-Warmed i c user rejected ok idle = record {
  ok = record { at = ok.at; lives = λ b. cc; wired = λ b. cc; named = short user };
  idle = idle;
  alive = refl;
  login = λ b. cc;
}
warmed-Warmed i c user (logged_in fd) ok idle = record {
  ok = record { at = ok.at; lives = λ b. refl; wired = λ b. refl; named = short user };
  idle = refl;
  alive = refl;
  login = λ b. refl;
}

module _ (net : Backends) (cfg : Config) {i : ℕ} (c : Conn) (asked : List Request)
    (ok : ConnOk i c) where
  pub warm_one-Warmed :
      (user : Str)
      → c.busy ≡ false
      → Warmed i user ((warm_one net c user asked).0, (warm_one net c user asked).1)
  unfolding warm_one
  warm_one-Warmed user idle = warmed-Warmed i c user _ ok idle

  pub own_user : 0 < length c.login_user → strncpy 127 (reconnect_user cfg c) ≡ c.login_user
  unfolding reconnect_user
  own_user some_user = go c.login_user some_user ok.named
    where
      go :
          (s : Str)
          → 0 < length s
          → length s ≤ 127
          → strncpy 127 (elim s [ [] ↦ strncpy 127 cfg.user | u ∷ us ↦ strncpy 127 (u ∷ us) ]) ≡ s
      go [] h le = absurd (omega arith)
      go (u ∷ us) h le = ap (strncpy 127) (take_all 127 (u ∷ us) le) ∙ take_all 127 (u ∷ us) le

  -- A reconnect of an idle connection.
  pub reconnect-Warmed :
      c.busy ≡ false
      → Warmed i
          (reconnect_user cfg c)
          ((reconnect net cfg c asked).0, (reconnect net cfg c asked).1)
  unfolding reconnect
  reconnect-Warmed idle =
      let w = warm_one-Warmed (reconnect_user cfg c) idle in
      elim (Bool-cases (warm_one net c (reconnect_user cfg c) asked).0) [
        | inl e ↦ rw e (record {
          ok = record { at = w.ok.at; lives = λ b. cc; wired = w.ok.wired; named = w.ok.named };
          idle = idle;
          alive = rw e at w.alive;
          login = λ b. w.login e;
        })
        | inr e ↦
            rw e (record { ok = w.ok; idle = w.idle; alive = rw e at w.alive; login = λ b. cc })
      ]

-- The connection that reconnect makes of what warm_one did.
abbrev ended : Conn → List Request → Bool × Conn → Done
ended c asked (done, c') =
    if done then (true, record c' { busy = c.busy }, asked) else (false, c', asked)

-- A reconnect leaves a connection in order once it is given back, also one that was leased.
pub reconnect_free_ok :
    (net : Backends) (cfg : Config) {i : ℕ} (c : Conn) (asked : List Request)
    → ConnOk i (record c { busy = false })
    → ConnOk i (record (reconnect net cfg c asked).1 { busy = false })
unfolding reconnect warm_one warmed conn_teardown_io
reconnect_free_ok net cfg {i} c asked ok =
    go (net.login asked c.slot (reconnect_user cfg c)) (reconnect_user cfg c)
  where
    go :
        (a : Login) (user : Str)
        → ConnOk i
            (record (ended c (logs_in c.slot user ∷ asked) (warmed (conn_teardown_io c) user a)).1 {
              busy = false;
            })
    go unreachable user = record { at = ok.at; lives = λ b. cc; wired = λ b. cc; named = ok.named }
    go no_wire user = record { at = ok.at; lives = λ b. cc; wired = λ b. cc; named = ok.named }
    go rejected user = record { at = ok.at; lives = λ b. cc; wired = λ b. cc; named = short user }
    go (logged_in fd) user = record {
      at = ok.at;
      lives = λ b. cc;
      wired = λ b. refl;
      named = short user;
    }
