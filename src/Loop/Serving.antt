-- ===== src/Loop/Serving.antt =====
-- src/iouring_loop.c, the connections of clients: alloc_conn, close_conn, accept_one, the TLS and the
-- plain input, and the dispatch of a completion in pqproxy_run.
use pqproxy.Base.{
  ℕ, zero, suc, ◌+◌, ◌-◌, Bool, true, false, ◌&&◌, ◌||◌, not, [], Option, none, some, codes, ltb,
  ◌==◌, if◌then◌else◌,
}
use pqproxy.StmtCache.{init}
use pqproxy.Identity.{Identity, Certificate, from_x509, clear, from_cert_subject}
use pqproxy.Outbox.{Outbox, submit_poll}
use pqproxy.FeQueue.{clear_all}
use pqproxy.WaitRing.{max_conns, waiters_remove}
use pqproxy.Metrics.{inc_accepts, inc_closes, set_pool_waiters}
use pqproxy.Loop.{
  Backend, cs_free, cs_tls_hs, cs_active, be_idle, Lane, Client, Server, Setup, FrontApi, Handled,
  note, put,
}
use pqproxy.Loop.Output.{entries_left}
use pqproxy.Loop.Schedule.{is_free, is_closing, is_some, finish_be}
use pqproxy.Loop.Rounds.{fair_schedule_waiters, fail_at}
use pqproxy.Loop.Pipelines.{max_depth}

abbrev pub resting : Lane
resting = record {
  be = none;
  be_wait = be_idle;
  be_send_pending = false;
  be_recv_pending = false;
  draining_queue = false;
}

abbrev pub no_output : Bool → Outbox
no_output ssl = record {
  ssl = ssl;
  send_buf = [];
  send_off = 0;
  send_pending = false;
  poll_pending = false;
  want_poll_out = false;
}

-- A connection after `memset` in alloc_conn, with its descriptor.
abbrev pub new_conn : Option ℕ → Client
new_conn fd = record {
  lane = resting;
  fd = fd;
  state = cs_free;
  id = clear;
  cache = init;
  identity_ready = false;
  recv_pending = false;
  frontend = [];
  drained = [];
  unsent = [];
  out = no_output false;
  got_execute = false;
  got_sync = false;
  be_resp = [];
  queue = clear_all;
}

-- pqproxy_tls_handshake: an error, waiting (to write, if true), or the end with what
-- the peer's certificate.
pub data Handshake : Type 0 where
  hs_failed : Handshake
  hs_waits : Bool → Handshake
  hs_done : Option Certificate → Handshake

-- pqproxy_tls_identity, from the peer's certificate.
abbrev pub tls_identity : Option Certificate → Option Identity
tls_identity none = none
tls_identity (some cert) = from_x509 cert

-- alloc_conn, from slot `i` on: the first free one.
unfoldable pub free_from : (ℕ → Client) → ℕ → ℕ → Option ℕ
free_from conns i zero = none
free_from conns i (suc n) =
    let rest = free_from conns (i + 1) n in if is_free (conns i).state then some i else rest

-- count_active_frontends
unfoldable pub active_from : (ℕ → Client) → ℕ → ℕ → ℕ
active_from conns i zero = 0
active_from conns i (suc n) =
    let rest = active_from conns (i + 1) n in if is_free (conns i).state then rest else suc rest

module _ {P : Type 0} (b : Backend P) (cfg : Setup) (api : FrontApi) where
  -- The backend connection of a closed client is given back, and others may have it.
  unfoldable pub release_be : Server P → ℕ → Server P
  release_be s i =
      if is_some (s.conns i).be && cfg.has_pool
      then (fair_schedule_waiters b cfg api (fail_at b cfg api max_depth)
          (finish_be b cfg s i true))
      else s

  -- The connection after close_conn.
  abbrev pub closed : Client → Client
  closed c = record c {
    lane = record c.lane { be_wait = be_idle; be_send_pending = false; be_recv_pending = false };
    fd = none;
    state = cs_free;
    recv_pending = false;
    out = record c.out { ssl = false; send_pending = false; poll_pending = false };
    queue = clear_all;
  }

  unfoldable pub close_conn : Server P → ℕ → Server P
  unfolding release_be
  close_conn s i =
      let w = waiters_remove s.waiters i in
      let removed = record s { waiters = w } in
      let s' =
        release_be
          (if w.count == s.waiters.count then removed else note (set_pool_waiters w.count) removed)
          i in
      if is_free (s.conns i).state then s else note inc_closes (put s' i (closed (s'.conns i)))

  -- A handler's connection is closed if it failed.
  unfoldable pub or_close : ℕ → Handled P → Server P
  or_close i (true, s) = s
  or_close i (false, s) = close_conn s i

  -- submit_recv and submit_poll; true for 0.
  unfoldable pub submit_recv : Server P → ℕ → Handled P
  submit_recv s i =
      let c = s.conns i in
      if c.out.ssl || c.recv_pending || is_closing c.state || is_free c.state
      then (true, s)
      else if s.sqes == 0
      then (false, s)
      else (true, put (record s { sqes = s.sqes - 1 }) i (record c { recv_pending = true }))

  unfoldable pub poll_again : Server P → ℕ → Handled P
  poll_again s i =
      let c = s.conns i in
      let (ok, o) = submit_poll (ltb 0 s.sqes) c.out in
      if is_free c.state
      then (true, s)
      else (ok, record (put s i (record c { out = o })) { sqes = entries_left c.out o s.sqes })

  -- The identity of a client is known.
  abbrev pub identified : Client → Identity → Client
  identified c id = record c {
    id = record id { identity_slot = cfg.identity_slot };
    identity_ready = true;
  }

  unfoldable pub tls_on_handshake_done : Server P → ℕ → Option Identity → Handled P
  tls_on_handshake_done s i none =
      (not cfg.require_mtls, put s i (record (s.conns i) { state = cs_active }))
  tls_on_handshake_done s i (some id) =
      (true, put s i (identified (record (s.conns i) { state = cs_active }) id))

  -- The handshake of a new connection, from CS_TLS_HS on.
  unfoldable pub first_handshake : Server P → ℕ → Handshake → Handled P
  unfolding poll_again tls_on_handshake_done
  first_handshake s i hs_failed = (false, s)
  first_handshake s i (hs_waits write) = poll_again s i
  first_handshake s i (hs_done cert) =
      let (ok, s') = tls_on_handshake_done s i (tls_identity cert) in
      if ok then poll_again s' i else (false, s')

  -- accept_one after alloc_conn gave the slot `i`; `created` tells whether pqwire_create gave a
  -- context, and `tls` is none if pqproxy_tls_conn_new_fd gave no connection.
  unfoldable pub accept_at : Server P → ℕ → ℕ → Bool → Option Handshake → Server P
  unfolding close_conn or_close submit_recv first_handshake
  accept_at s i fd created tls =
      let s' = note inc_accepts (put s i (new_conn (some fd))) in
      let plain =
        identified (record (new_conn (some fd)) { state = cs_active })
          (from_cert_subject (codes "plain-dev:default")) in
      if not created
      then close_conn s' i
      else if cfg.has_tls
      then elim tls [
        | none ↦ close_conn s' i
        | some hs ↦ or_close i (
            first_handshake
              (put s' i (record (new_conn (some fd)) { state = cs_tls_hs; out = no_output true })) i
              hs)
      ]
      else or_close i (submit_recv (put s' i plain) i)

  -- accept_one on a descriptor; without a free slot it is closed.
  unfoldable pub accept_one : Server P → ℕ → Bool → Option Handshake → Server P
  unfolding free_from accept_at
  accept_one s fd created tls = elim (free_from s.conns 0 max_conns) [
    | none ↦ s
    | some i ↦ accept_at s i fd created tls
  ]
