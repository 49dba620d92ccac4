-- ===== src/Pool.antt =====
-- src/backend_pool.c, one connection of the backend pool: how it is torn down, logged in, probed,
-- leased and given back.
pub mod Checkout
pub mod Logins
pub mod Conns
pub mod Lease
pub mod Rounds
pub mod Search
pub mod Release
pub mod Owners
use pqproxy.Base.{
  ℕ, ◌+◌, Bool, true, false, ◌||◌, not, List, [], ◌∷◌, Option, none, some, Str, strncpy,
  if◌then◌else◌, get_or, set, length,
}

-- pqproxy_backend_conn: `fd` is none for -1, `wire` says whether the pointer is set, and the
-- buffers are the bytes up to their lengths.
pub record Conn : Type 0 where
  pub fd : Option ℕ
  pub wire : Bool
  pub login_user : Str
  pub busy : Bool
  pub alive : Bool
  pub slot : ℕ
  pub send_buf : Str
  pub send_off : ℕ
  pub recv_acc : Str

-- The parts of pqproxy_backend_config_t that decide how connections are handed out.
pub record Config : Type 0 where
  pub user : Str
  pub use_group_as_user : Bool
  pub lazy_connect : Bool
  pub auto_reconnect : Bool
  pub health_check_on_checkout : Bool

-- How a login ends: in tcp_connect, in pqwire_create, in backend_authenticate, or on a descriptor.
pub data Login : Type 0 where
  unreachable no_wire rejected : Login
  logged_in : ℕ → Login

-- What the pool asks of the backends: a login for a slot, as a user, and a probe of a slot.
pub data Request : Type 0 where
  logs_in : ℕ → Str → Request
  probes : ℕ → Request

-- What the backends answer, after the requests before, latest first.
pub record Backends : Type 0 where
  pub login : List Request → ℕ → Str → Login
  pub healthy : List Request → ℕ → Bool

-- conn_teardown_io
unfoldable pub conn_teardown_io : Conn → Conn
conn_teardown_io c = record c {
  fd = none;
  wire = false;
  alive = false;
  send_buf = [];
  send_off = 0;
  recv_acc = [];
}

-- An operation on a connection: whether it returned 0, the connection and the requests made.
abbrev pub Done : Type 0
Done = Bool × Conn × List Request

-- What warm_one does with the answer.
unfoldable pub warmed : Conn → Str → Login → Bool × Conn
warmed c user unreachable = (false, c)
warmed c user no_wire = (false, c)
warmed c user rejected = (false, conn_teardown_io (record c { login_user = strncpy 127 user }))
warmed c user (logged_in fd) = (
  true,
  record c { fd = some fd; wire = true; login_user = strncpy 127 user; alive = true; busy = false },
)

unfoldable pub warm_one : Backends → Conn → Str → List Request → Done
unfolding warmed
warm_one net c user asked =
    let (done, c') = warmed (conn_teardown_io c) user (net.login asked c.slot user) in
    (done, c', logs_in c.slot user ∷ asked)

-- The user of a reconnect: the connection's own, else the pool's.
unfoldable pub reconnect_user : Config → Conn → Str
reconnect_user cfg c = elim c.login_user [
  | [] ↦ strncpy 127 cfg.user
  | u ∷ us ↦ strncpy 127 (u ∷ us)
]

unfoldable pub reconnect : Backends → Config → Conn → List Request → Done
unfolding reconnect_user
reconnect net cfg c asked =
    let (done, c', asked') = warm_one net c (reconnect_user cfg c) asked in
    if done then (true, record c' { busy = c.busy }, asked') else (false, c', asked')

-- The answer to `SELECT 1` is the backend's; no answer tears the connection down.
unfoldable pub health_check : Backends → Conn → List Request → Done
health_check net c asked =
    if not c.alive || not c.wire
    then (false, c, asked)
    else if net.healthy asked c.slot
    then (true, c, probes c.slot ∷ asked)
    else (false, conn_teardown_io c, probes c.slot ∷ asked)

-- checkout_try after a probe that failed.
unfoldable pub try_again : Backends → Config → Conn → List Request → Done
try_again net cfg c asked =
    let (done, c', asked') = reconnect net cfg (record c { busy = false }) asked in
    if not cfg.auto_reconnect
    then (false, record c { busy = false }, asked)
    else if done
    then (true, record c' { busy = true }, asked')
    else (false, c', asked')

unfoldable pub checkout_try : Backends → Config → Conn → List Request → Done
unfolding try_again
checkout_try net cfg c asked =
    let (healthy, c', asked') = health_check net (record c { busy = true }) asked in
    if not c.alive || c.busy
    then (false, c, asked)
    else if not cfg.health_check_on_checkout
    then (true, record c { busy = true }, asked)
    else if healthy
    then (true, c', asked')
    else try_again net cfg c' asked'

unfoldable pub checkin : Conn → Conn
checkin c = record c { busy = false }

-- The end of async_finish.
unfoldable pub released : Conn → Conn
released c = checkin (record c { send_buf = []; send_off = 0; recv_acc = [] })

-- pqproxy_backend_async_finish: the connection and the requests made, given the pool.
unfoldable pub async_finish : Backends → Config → Conn → Bool → List Request → Conn × List Request
unfolding released
async_finish net cfg c failed asked =
    let down = record (conn_teardown_io c) { login_user = strncpy 127 c.login_user } in
    let again = reconnect net cfg down asked in
    if not failed
    then (released c, asked)
    else if not cfg.auto_reconnect
    then (released down, asked)
    else elim c.login_user [
      | [] ↦ (released down, asked)
      | u ∷ us ↦ (released (record again.1 { busy = false }), again.2)
    ]

abbrev pub no_conn : Conn
no_conn = record {
  fd = none;
  wire = false;
  login_user = [];
  busy = false;
  alive = false;
  slot = 0;
  send_buf = [];
  send_off = 0;
  recv_acc = [];
}

-- pqproxy_backend_pool, with the requests that it has made.
pub record Pool : Type 0 where
  pub conns : List Conn
  pub rr_cursor : ℕ
  pub asked : List Request

-- max_conns
abbrev pub size : Pool → ℕ
size p = length p.conns

abbrev pub conn_at : Pool → ℕ → Conn
conn_at p i = get_or p.conns i no_conn

-- Replace a connection, after an operation on it.
abbrev pub with_conn : Pool → ℕ → Conn → List Request → Pool
with_conn p i c asked = record p { conns = set p.conns i c; asked = asked }
