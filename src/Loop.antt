-- ===== src/Loop.antt =====
-- src/iouring_loop.c, the event loop: its connections and the server, and the small steps that the
-- handlers share. The children have the handlers, and the parents' components the parts they call.
pub mod Output
pub mod Schedule
pub mod Rounds
pub mod Pipelines
pub mod Frontend
pub mod Serving
pub mod Dispatch
pub mod Leases
pub mod Moves
pub mod Lends
pub mod Renews
pub mod Calm
pub mod Starts
pub mod Begins
pub mod Drains
pub mod Drained
pub mod Grants
pub mod Releases
pub mod Failures
pub mod Ends
pub mod Events
pub mod Closing
pub mod Accepts
pub mod Serves
pub mod Turns
pub mod Reached
pub mod Whole
pub mod Slots
use pqproxy.Base.{
  ℕ, zero, suc, ◌+◌, Bool, true, false, List, [], ◌∷◌, Option, none, some, ℤ, Str, ◌==◌,
  if◌then◌else◌, length, ◌≤◌, ◌<◌, ◌≡◌, ◌≢◌,
}
use pqproxy.Pique.{PrepareApi}
use pqproxy.Pique.Wire.{Bind, Wire, WireApi}
use pqproxy.StmtCache.{Cache}
use pqproxy.Identity.{Identity}
use pqproxy.Recv.{Ending}
use pqproxy.Outbox.{Outbox}
use pqproxy.FeQueue.{Queue}
use pqproxy.WaitRing.{Waiters}
use pqproxy.Metrics.{Note}

-- What the loop calls of backend_pool.h on a pool `P`, where a connection is its index:
-- async_begin, async_finish, async_send_ptr, async_send_advance, async_on_recv with the bytes for
-- the client before and after, saw_error of the pipeline's status, exec_bind, exec_query and pool_maintain.
pub record Backend (P : Type 0) : Type 0 where
  pub begin : P → Cache → Bind → Identity → Option ℕ × P
  pub finish : P → ℕ → Bool → P
  pub send_ptr : P → ℕ → Str
  pub advance : P → ℕ → ℕ → P
  pub on_recv : P → ℕ → Str → Str → Ending × Str × P
  pub saw_error : P → ℕ → Bool
  pub exec_bind : P → Cache → Bind → Identity → Option Str × P
  pub exec_query : P → Str → Str → Option Str × P
  pub maintain : P → P
  -- Whether a connection is lent out.
  pub leased : P → ℕ → Bool

-- How async_begin ends.
pub data Begun {P : Type 0} (b : Backend P) (Ok : P → Type 0) (p : P) : Option ℕ × P → Type 0 where
  no_lease : {q : P} → Ok q → ((j : ℕ) → b.leased q j ≡ b.leased p j) → Begun b Ok p (none, q)
  one_lease :
      {q : P} {i : ℕ}
      → Ok q
      → b.leased p i ≡ false
      → b.leased q i ≡ true
      → ((j : ℕ) → j ≢ i → b.leased q j ≡ b.leased p j)
      → Begun b Ok p (some i, q)

-- What the loop relies on: only async_begin lends, an idle connection, and only async_finish takes back. The groups of clients are shorter than 128 bytes.
pub record BackendLaws {P : Type 0} (b : Backend P) : Type 1 where
  pub Ok : P → Type 0
  pub begins :
      (p : P) (cache : Cache) (bind : Bind) (id : Identity)
      → Ok p
      → length id.group ≤ 127
      → Begun b Ok p (b.begin p cache bind id)
  pub finishes :
      (p : P) (i : ℕ) (failed : Bool)
      → Ok p
      → b.leased p i ≡ true
      → Ok (b.finish p i failed)
        × (b.leased (b.finish p i failed) i ≡ false)
        × ((j : ℕ) → j ≢ i → b.leased (b.finish p i failed) j ≡ b.leased p j)
  pub advances :
      (p : P) (i n : ℕ)
      → Ok p
      → b.leased p i ≡ true
      → Ok (b.advance p i n) × ((j : ℕ) → b.leased (b.advance p i n) j ≡ b.leased p j)
  pub receives :
      (p : P) (i : ℕ) (bytes out : Str)
      → Ok p
      → b.leased p i ≡ true
      → Ok (b.on_recv p i bytes out).2
        × ((j : ℕ) → b.leased (b.on_recv p i bytes out).2 j ≡ b.leased p j)
  pub binds :
      (p : P) (cache : Cache) (bind : Bind) (id : Identity)
      → Ok p
      → length id.group ≤ 127
      → Ok (b.exec_bind p cache bind id).1
        × ((j : ℕ) → b.leased (b.exec_bind p cache bind id).1 j ≡ b.leased p j)
  pub queries :
      (p : P) (group sql : Str)
      → Ok p
      → length group ≤ 127
      → Ok (b.exec_query p group sql).1
        × ((j : ℕ) → b.leased (b.exec_query p group sql).1 j ≡ b.leased p j)
  pub maintains :
      (p : P) → Ok p → Ok (b.maintain p) × ((j : ℕ) → b.leased (b.maintain p) j ≡ b.leased p j)

-- conn_state_t and be_wait_t
pub data ConnState : Type 0 where
  cs_free cs_tls_hs cs_active cs_closing : ConnState

pub data BeWait : Type 0 where
  be_idle be_sending be_reading be_waiting_pool : BeWait

-- The fields of conn_t that say which backend connection it uses, and how.
pub record Lane : Type 0 where
  pub be : Option ℕ
  pub be_wait : BeWait
  pub be_send_pending : Bool
  pub be_recv_pending : Bool
  pub draining_queue : Bool

-- The other fields of conn_t. `out` is the part for sending, `frontend` the context's history;
-- its output is `unsent`, and what the messages after `drained` queued.
pub record Client : Type 0 where
  pub lane : Lane
  pub open lane use *
  pub fd : Option ℕ
  pub state : ConnState
  pub id : Identity
  pub cache : Cache
  pub identity_ready : Bool
  pub recv_pending : Bool
  pub frontend : Wire
  pub drained : Wire
  pub unsent : List Str
  pub out : Outbox
  pub got_execute : Bool
  pub got_sync : Bool
  pub be_resp : Str
  pub queue : Queue

-- server_t, with the entries that are left in the submission queue, and the calls that changed the
-- metrics, latest first.
pub record Server (P : Type 0) : Type 0 where
  pub pool : P
  pub conns : ℕ → Client
  pub waiters : Waiters
  pub sqes : ℕ
  pub notes : List Note

-- The settings that the handlers read: `has_pool` for srv->pool, `has_tls` for srv->tls_ctx.
pub record Setup : Type 0 where
  pub has_pool : Bool
  pub has_tls : Bool
  pub require_mtls : Bool
  pub async_backend : Bool
  pub fair_schedule : Bool
  pub reject_simple_query : Bool
  pub identity_slot : ℤ
  pub identity_param_name : Str

-- pique on the frontends' contexts, and the pieces that pqwire_get_output gives for the messages
-- queued from one history to a later one.
pub record FrontApi : Type 0 where
  pub prepare : PrepareApi
  pub wire : WireApi
  pub outputs : Wire → Wire → List Str

-- The result of a handler: whether it returned 0, and the server.
abbrev pub Handled : Type 0 → Type 0
Handled P = Bool × Server P

abbrev pub note : {P : Type 0} → Note → Server P → Server P
note n s = record s { notes = n ∷ s.notes }

abbrev pub put : {P : Type 0} → Server P → ℕ → Client → Server P
put s i c = record s { conns = λ j. if j == i then c else s.conns j }

-- Change the lane of a connection alone.
abbrev pub put_lane : {P : Type 0} → Server P → ℕ → Lane → Server P
put_lane s i l = put s i (record (s.conns i) { lane = l })

abbrev pub put_pool : {P : Type 0} → Server P → P → Server P
put_pool s p = record s { pool = p }
