-- ===== src/Pool/Checkout.antt =====
-- src/backend_pool.c, the operations on the whole pool: maintenance, and how a connection is chosen.
use pqproxy.Base.{
  ℕ, zero, suc, ◌+◌, ◌%◌, Bool, true, false, ◌&&◌, ◌||◌, not, [], ◌∷◌, Option, none, some, Str,
  str_eq, if◌then◌else◌, ◌==◌, set,
}
use pqproxy.Pool.{
  Config, Backends, Pool, size, conn_at, with_conn, warm_one, reconnect, checkout_try, checkin,
  async_finish,
}

abbrev pub is_empty : Str → Bool
is_empty [] = true
is_empty (b ∷ bs) = false

-- The loop of pqproxy_backend_pool_maintain, from `i` on, for `n` rounds: how many connections it
-- logged in again, and the pool.
unfoldable pub maintain_from : Backends → Config → Pool → ℕ → ℕ → ℕ × Pool
maintain_from net cfg p i zero = (0, p)
maintain_from net cfg p i (suc n) =
    let c = conn_at p i in
    let (done, c', asked) = reconnect net cfg c p.asked in
    let skip = c.busy || c.alive || is_empty c.login_user in
    let (count, p') =
      maintain_from net cfg (if skip then p else with_conn p i c' asked) (i + 1) n in
    (if not skip && done then suc count else count, p')

unfoldable pub maintain : Backends → Config → Pool → ℕ × Pool
maintain net cfg p = if not cfg.auto_reconnect then (0, p) else maintain_from net cfg p 0 (size p)

-- Where a round of a search leaves it: with a connection, or with the fallback for what follows.
pub data Round : Type 0 where
  found : ℕ → Pool → Round
  goes_on : Option ℕ → Pool → Round

-- `for (i = 0; i < max_conns; i++) { idx = (start + i) % max_conns; … }`, with the body `round`,
-- from the offset `k` on, for `n` rounds.
unfoldable pub pass : (Option ℕ → Pool → ℕ → Round) → ℕ → Option ℕ → Pool → ℕ → ℕ → Round
pass round start fb p k zero = goes_on fb p
pass round start fb p k (suc n) = elim (round fb p ((start + k) % size p)) [
  | found i p' ↦ found i p'
  | goes_on fb' p' ↦ pass round start fb' p' (k + 1) n
]

-- checkout_try on a connection of the pool; the cursor goes behind it if it is taken.
unfoldable pub try_at : Backends → Config → Option ℕ → Pool → ℕ → Round
try_at net cfg fb p i =
    let (got, c', asked) = checkout_try net cfg (conn_at p i) p.asked in
    let p' = with_conn p i c' asked in
    if got then found i (record p' { rr_cursor = (i + 1) % size p }) else goes_on fb p'

-- The body of the first loop of checkout.
unfoldable pub first_round : Backends → Config → Str → Option ℕ → Pool → ℕ → Round
unfolding try_at
first_round net cfg group fb p i =
    let c = conn_at p i in
    if not c.alive || c.busy
    then goes_on fb p
    else if not (is_empty group) && str_eq c.login_user group
    then try_at net cfg fb p i
    else goes_on (elim fb [ none ↦ some i | some j ↦ some j ]) p

-- The body of the second loop.
unfoldable pub group_round : Backends → Config → Str → Option ℕ → Pool → ℕ → Round
unfolding try_at
group_round net cfg group fb p i =
    let c = conn_at p i in
    if c.alive && not c.busy && str_eq c.login_user group
    then try_at net cfg fb p i
    else goes_on fb p

-- A lazy login as the group.
unfoldable pub lazy_login : Backends → Pool → Str → ℕ → Option ℕ × Pool
lazy_login net p group i =
    let (done, c', asked) = warm_one net (conn_at p i) group p.asked in
    if done
    then (
      some i,
      record (with_conn p i (record c' { busy = true }) asked) { rr_cursor = (i + 1) % size p },
    )
    else (none, with_conn p i c' asked)

-- The third loop: only the first connection that is not alive is tried.
unfoldable pub lazy_from : Backends → Pool → Str → ℕ → ℕ → ℕ → Option ℕ × Pool
unfolding lazy_login
lazy_from net p group start k zero = (none, p)
lazy_from net p group start k (suc n) =
    let i = (start + k) % size p in
    let rest = lazy_from net p group start (k + 1) n in
    if not (conn_at p i).alive then lazy_login net p group i else rest

unfoldable pub by_group : Backends → Config → Str → ℕ → Pool → Option ℕ × Pool
unfolding group_round
by_group net cfg group start p = elim (pass (group_round net cfg group) start none p 0 (size p)) [
  | found i p' ↦ (some i, p')
  | goes_on fb p' ↦
      if cfg.lazy_connect then lazy_from net p' group start 0 (size p') else (none, p')
]

-- The cursor goes behind the slot of the fallback.
unfoldable pub by_fallback : Backends → Config → Option ℕ → Pool → Option ℕ × Pool
by_fallback net cfg none p = (none, p)
by_fallback net cfg (some i) p =
    let (got, c', asked) = checkout_try net cfg (conn_at p i) p.asked in
    let p' = with_conn p i c' asked in
    if got then (some i, record p' { rr_cursor = (c'.slot + 1) % size p }) else (none, p')

unfoldable pub search_conns : Backends → Config → Str → Pool → Option ℕ × Pool
unfolding first_round
search_conns net cfg group p =
    let start = p.rr_cursor % size p in
    elim (pass (first_round net cfg group) start none p 0 (size p)) [
      | found i p' ↦ (some i, p')
      | goes_on fb p' ↦
          if cfg.use_group_as_user && not (is_empty group)
          then by_group net cfg group start p'
          else by_fallback net cfg fb p'
    ]

-- pqproxy_backend_checkout: the connection's index, if there is one, and the pool. An absent group
-- is the empty one.
unfoldable pub checkout : Backends → Config → Pool → Str → Option ℕ × Pool
checkout net cfg p group =
    if size p == 0
    then (none, p)
    else search_conns net cfg group (if cfg.auto_reconnect then (maintain net cfg p).1 else p)

unfoldable pub checkin_at : Pool → ℕ → Pool
checkin_at p i = record p { conns = set p.conns i (checkin (conn_at p i)) }

unfoldable pub finish_at : Backends → Config → Pool → ℕ → Bool → Pool
finish_at net cfg p i failed =
    let (c', asked) = async_finish net cfg (conn_at p i) failed p.asked in with_conn p i c' asked
