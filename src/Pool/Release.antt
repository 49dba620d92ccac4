-- ===== src/Pool/Release.antt =====
-- How a connection is given back: by a checkin, and at the end of a pipeline.
use pqproxy.Base.{
  ℕ, ◌<◌, ◌≡◌, ◌≢◌, refl, Bool, false, if_cases, not, List, [], ◌∷◌, Str, strncpy, length-set,
  length-take, arith,
}
use pqproxy.Pool.{
  Conn, Config, Backends, Request, Pool, size, conn_at, with_conn, conn_teardown_io, checkin,
  released, reconnect, async_finish,
}
use pqproxy.Pool.Checkout.{checkin_at, finish_at}
use pqproxy.Pool.Logins.{ConnOk, reconnect_free_ok}
use pqproxy.Pool.Conns.{free_ok}
use pqproxy.Pool.Lease.{Inv, at_written, written-Inv}

-- Connection `i` is idle, and the others are as before.
pub record Freed (p p' : Pool) (i : ℕ) : Type 0 where
  pub width : size p' ≡ size p
  pub inv : Inv p'
  pub idle : (conn_at p' i).busy ≡ false
  pub others : (j : ℕ) → j ≢ i → conn_at p' j ≡ conn_at p j

written-Freed :
    (p : Pool) (i : ℕ) (c : Conn) (asked : List Request)
    → Inv p
    → i < size p
    → ConnOk i c
    → c.busy ≡ false
    → Freed p (with_conn p i c asked) i
written-Freed p i c asked v h ok idle = record {
  width = length-set p.conns i c;
  inv = written-Inv p i h c asked v ok;
  idle = at_written (λ d. d.busy ≡ false) p.conns i i c h (λ s. idle) (λ ne. absurd (ne refl));
  others =
      λ j ne. at_written (λ d. d ≡ conn_at p j) p.conns i j c h (λ s. absurd (ne s)) (λ ne'. refl);
}

pub checkin_at-Freed : (p : Pool) (i : ℕ) → Inv p → i < size p → Freed p (checkin_at p i) i
unfolding checkin_at checkin
checkin_at-Freed p i v h =
    written-Freed p i (record (conn_at p i) { busy = false }) p.asked v h (free_ok _ (v i h)) refl

-- A connection in order that is released.
abbrev Ended : ℕ → Conn → Type 0
Ended i c = ConnOk i c × (c.busy ≡ false)

released-Ended : {i : ℕ} (c : Conn) → ConnOk i (record c { busy = false }) → Ended i (released c)
unfolding released checkin
released-Ended c ok =
    (record { at = ok.at; lives = λ b. cc; wired = ok.wired; named = ok.named }, refl)

-- The connection that a failure leaves before the login.
abbrev down : Conn → Conn
down c = record (conn_teardown_io c) { login_user = strncpy 127 c.login_user }

down_free_ok : {i : ℕ} (c : Conn) → ConnOk i c → ConnOk i (record (down c) { busy = false })
unfolding conn_teardown_io
down_free_ok c ok = record {
  at = ok.at;
  lives = λ b. cc;
  wired = λ b. cc;
  named = omega (arith, length-take 127 c.login_user);
}

async_finish-Ended :
    (net : Backends) (cfg : Config) {i : ℕ} (c : Conn) (failed : Bool) (asked : List Request)
    → ConnOk i c
    → Ended i (async_finish net cfg c failed asked).0
unfolding async_finish
async_finish-Ended net cfg {i} c failed asked ok =
    let again = reconnect net cfg (down c) asked in
    if_cases (λ (r : Conn × List Request). Ended i r.0) (not failed)
      (λ e. released-Ended c (free_ok c ok))
      λ e.
        if_cases (λ (r : Conn × List Request). Ended i r.0) (not cfg.auto_reconnect)
          (λ off. released-Ended (down c) (down_free_ok c ok)) (λ on. named_or_not c.login_user)
  where
    named_or_not :
        (user : Str)
        → Ended i
            (elim user as (λ x. Conn × List Request) [
              | [] ↦ (released (down c), asked)
              | u ∷ us ↦ (
                released (record (reconnect net cfg (down c) asked).1 { busy = false }),
                (reconnect net cfg (down c) asked).2,
              )
            ]).0
    named_or_not [] = released-Ended (down c) (down_free_ok c ok)
    named_or_not (u ∷ us) =
        released-Ended (record (reconnect net cfg (down c) asked).1 { busy = false })
          (reconnect_free_ok net cfg (down c) asked (down_free_ok c ok))

-- The end of a pipeline on a pool in order, failed or not and whatever the login after a failure
-- gives, leaves the connection idle, the other connections as they were and the pool in order.
pub finish_at-Freed :
    (net : Backends) (cfg : Config) (p : Pool) (i : ℕ) (failed : Bool)
    → Inv p
    → i < size p
    → Freed p (finish_at net cfg p i failed) i
unfolding finish_at
finish_at-Freed net cfg p i failed v h =
    let (ok, idle) = async_finish-Ended net cfg (conn_at p i) failed p.asked (v i h) in
    let r = async_finish net cfg (conn_at p i) failed p.asked in
    written-Freed p i r.0 r.1 v h ok idle
