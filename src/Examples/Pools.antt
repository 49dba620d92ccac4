-- ===== src/Examples/Pools.antt =====
-- A pool of two connections, one per group, whose backends accept logins and fail probes.
use pqproxy.Base.{
  str_eq, ℕ, zero, suc, ◌+◌, ◌≡◌, refl, true, false, [], ◌∷◌, some, Str, codes, arith,
}
use pqproxy.Base.Members.{contains, without}
use pqproxy.Pool.{
  Conn, Config, Backends, logged_in, Pool, no_conn, conn_at, conn_teardown_io, warmed, warm_one,
  reconnect, health_check, try_again, checkout_try, reconnect_user,
}
use pqproxy.Pool.Checkout.{
  maintain, checkout, finish_at, maintain_from, pass, first_round, try_at, search_conns,
}
use pqproxy.Pool.Lease.{Inv}
use pqproxy.Pool.Search.{Outcome, checkout-Outcome}
use pqproxy.Pool.Release.{Freed, finish_at-Freed}
use pqproxy.Pool.Owners.{starts, lends, finishes, Owned, Reaches-Owned}

abbrev backends : Backends
backends = record { login = λ asked slot user. logged_in 9; healthy = λ asked slot. false }

abbrev grouped : Config
grouped = record {
  user = codes "postgres";
  use_group_as_user = true;
  lazy_connect = true;
  auto_reconnect = true;
  health_check_on_checkout = true;
}

abbrev logged : Str → ℕ → Conn
logged user i = record no_conn {
  fd = some (5 + i);
  wire = true;
  alive = true;
  login_user = user;
  slot = i;
}

abbrev east : Str
east = codes "east"

abbrev west : Str
west = codes "west"

abbrev two : Pool
two = record { conns = logged west 0 ∷ logged east 1 ∷ []; rr_cursor = 0; asked = [] }

two-Inv : Inv two
two-Inv zero h = record { at = refl; lives = λ b. cc; wired = λ a. refl; named = omega arith }
two-Inv (suc zero) h = record { at = refl; lives = λ b. cc; wired = λ a. refl; named = omega arith }
two-Inv (suc (suc j)) h = absurd (omega arith)

two_idle : (j : ℕ) → (conn_at two j).busy ≡ false
two_idle zero = refl
two_idle (suc zero) = refl
two_idle (suc (suc j)) = refl

-- The pool after `east` was leased: the probe failed, and the connection was logged in again.
abbrev leased : Pool
leased = (checkout backends grouped two east).1

leases_east : checkout backends grouped two east ≡ (some 1, leased)
unfolding checkout maintain maintain_from search_conns first_round pass try_at checkout_try
    health_check try_again reconnect warm_one warmed conn_teardown_io reconnect_user str_eq
leases_east = refl

checkout-Outcome_example : Outcome grouped two east (checkout backends grouped two east)
checkout-Outcome_example = checkout-Outcome backends grouped east two two-Inv (omega arith)

finish_at-Freed_example : Freed two (finish_at backends grouped two 1 true) 1
finish_at-Freed_example = finish_at-Freed backends grouped two 1 true two-Inv (omega arith)

held_one : contains 1 (1 ∷ []) ≡ true
unfolding contains
held_one = refl

Reaches-Owned_example : Owned two (finish_at backends grouped leased 1 true) (without 1 (1 ∷ []))
Reaches-Owned_example =
    Reaches-Owned two-Inv two_idle
      (finishes 1 true (lends east starts (omega arith) leases_east) held_one)
