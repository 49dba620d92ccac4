-- ===== src/Examples/Clients.antt =====
-- The event loop with a pool of one connection and two clients.
use pqproxy.Base.{ℕ, zero, suc, ◌<◌, ◌≡◌, refl, true, false, [], ◌∷◌, none, some, pos, codes, arith}
use pqproxy.Identity.{Identity, clear}
use pqproxy.Pique.Wire.{Bind, text_param}
use pqproxy.Pool.{Config, Backends, logged_in, Pool, no_conn, conn_at}
use pqproxy.Pool.Lease.{Inv}
use pqproxy.Pipeline.{Pipes, PiqueApi, Answers}
use pqproxy.Pipeline.Served.{backend, backend_laws}
use pqproxy.Loop.{Backend, Server, Setup, FrontApi}
use pqproxy.StmtCache.{init}
use pqproxy.Pool.Lease.{Kept}
use pqproxy.Pipeline.{async_begin, exec_bind}
use pqproxy.Pipeline.Sending.{Began, async_begin-Began}
use pqproxy.Pipeline.Blocking.{exec_bind-Kept}
use pqproxy.Loop.Output.{send_both, send_front, drain_frontend_out, send_pieces}
use pqproxy.Loop.Frontend.{process_frontend, on_event, act, on_sync_event}
use pqproxy.Loop.Dispatch.{on_received_plain, pack_ud, unpack_ud}
use pqproxy.Loop.Slots.{Found, unpack_ud-pack_ud, free_from-Found}
use pqproxy.Loop.Frontend.{ev_startup, ev_sync}
use pqproxy.Loop.Serving.{new_conn, accept_one, free_from, accept_at, submit_recv, or_close}
use pqproxy.Loop.Dispatch.{accepted, received, recv_events, serve, on_completion}
use pqproxy.Loop.Reached.{Fresh, Reached, starts, turns, Exclusive}
use pqproxy.Loop.Whole.{whole-Exclusive}
use pqproxy.Examples.Library.{copying, accepting}

abbrev pique : PiqueApi (Unit {0})
pique = record {
  wire = accepting;
  pipeline = record {
    peek = λ msg. none;
    feed = λ st msg. (true, tt);
    complete = λ st. false;
    filtered = λ type skip. false;
  };
  init = tt;
  saw_error = λ st. false;
  outputs = λ before after. (80 ∷ []) ∷ [];
}

abbrev net : Backends
net = record { login = λ asked slot user. logged_in 9; healthy = λ asked slot. true }

abbrev shared : Config
shared = record {
  user = codes "postgres";
  use_group_as_user = false;
  lazy_connect = false;
  auto_reconnect = true;
  health_check_on_checkout = false;
}

abbrev no_answers : Pipes (Unit {0}) → ℕ → Answers
no_answers s i = record { writes = []; replies = [] }

abbrev setup : Setup
setup = record {
  has_pool = true;
  has_tls = false;
  require_mtls = false;
  async_backend = true;
  fair_schedule = true;
  reject_simple_query = true;
  identity_slot = pos 0;
  identity_param_name = [];
}

abbrev front : FrontApi
front = record { prepare = copying; wire = accepting; outputs = λ before after. [] }

abbrev one : Pool
one = record {
  conns =
      record no_conn { fd = some 5; wire = true; alive = true; login_user = codes "postgres" } ∷ [];
  rr_cursor = 0;
  asked = [];
}

one-Inv : Inv one
one-Inv zero h = record { at = refl; lives = λ b. cc; wired = λ a. refl; named = omega arith }
one-Inv (suc j) h = absurd (omega arith)

abbrev bound : Bind
bound = record {
  portal = [];
  statement = codes "st1";
  params = text_param (codes "hello") (pos 0) ∷ text_param (codes "me") (pos 0) ∷ [];
  result_formats = [];
}

abbrev router : Identity
router = record { router_id = codes "router-9"; group = codes "east"; identity_slot = pos 1 }

abbrev start : Server (Pipes (Unit {0}))
start = record {
  pool = record {
    pool = one;
    links = λ i. record { context = []; pipe_st = tt; skip_parse_bind = false };
  };
  conns = λ i. new_conn none;
  waiters = record { cells = []; head = 0; tail = 0; count = 0 };
  sqes = 512;
  notes = [];
}

start-Fresh : Fresh (backend_laws pique net shared no_answers) start
unfolding backend_laws clear
start-Fresh = record {
  ok = one-Inv;
  unlent = λ k. unlent k;
  at_rest = λ i. refl;
  free = λ i. refl;
  short = λ i. omega arith;
}
  where
    unlent : (k : ℕ) → (conn_at one k).busy ≡ false
    unlent zero = refl
    unlent (suc k) = refl

abbrev pipes : Backend (Pipes (Unit {0}))
pipes = backend pique net shared no_answers

-- A client connects, then another one.
abbrev joined : Server (Pipes (Unit {0}))
joined = serve pipes setup front start (accepted 7 true none)

abbrev both : Server (Pipes (Unit {0}))
both = serve pipes setup front joined (accepted 8 true none)

joined_room : 0 < (on_completion pipes setup front start (accepted 7 true none)).sqes
unfolding on_completion accept_one free_from accept_at submit_recv or_close
joined_room = omega arith

both_room : 0 < (on_completion pipes setup front joined (accepted 8 true none)).sqes
unfolding serve on_completion accept_one free_from accept_at submit_recv or_close
both_room = omega arith

-- The first client says hello.
abbrev greeted : Server (Pipes (Unit {0}))
greeted = serve pipes setup front both (received 0 (recv_events (ev_startup ∷ ev_sync ∷ [])))

greeted_room :
    0
    < (on_completion pipes setup front both
        (received 0 (recv_events (ev_startup ∷ ev_sync ∷ [])))).sqes
unfolding serve on_completion accept_one free_from accept_at submit_recv or_close on_received_plain
    process_frontend on_event act send_both send_front on_sync_event drain_frontend_out send_pieces
greeted_room = omega arith

greeted-Reached : Reached pipes setup front start greeted
greeted-Reached =
    turns (received 0 (recv_events (ev_startup ∷ ev_sync ∷ [])))
      (turns (accepted 8 true none) (turns (accepted 7 true none) starts refl joined_room) refl
        both_room)
      refl greeted_room

whole-Exclusive_example : Exclusive pipes greeted
whole-Exclusive_example =
    whole-Exclusive pique net shared no_answers setup front refl start-Fresh (omega arith)
      greeted-Reached

async_begin-Began_example : Began one (async_begin pique net shared start.pool init bound router)
async_begin-Began_example =
    async_begin-Began pique net shared start.pool init bound router one-Inv (omega arith)

exec_bind-Kept_example :
    Kept one
      (exec_bind pique net shared start.pool (no_answers start.pool) init bound router 16384).1.pool
    × Inv
        (exec_bind pique net shared start.pool
          (no_answers start.pool)
          init
          bound
          router
          16384).1.pool
exec_bind-Kept_example =
    exec_bind-Kept pique net shared start.pool (no_answers start.pool) init bound router 16384
      one-Inv (omega arith)

unpack_ud-pack_ud_example : unpack_ud (pack_ud 6 255) ≡ (6, 255)
unpack_ud-pack_ud_example = unpack_ud-pack_ud 6 255 (omega arith) (omega arith)

free_from-Found_example : Found start.conns 0 256 (free_from start.conns 0 256)
free_from-Found_example = free_from-Found start.conns 0 256
