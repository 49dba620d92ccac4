-- ===== src/Loop/Whole.antt =====
-- src/iouring_loop.c on the pool of src/backend_pool.c.
use pqproxy.Base.{ℕ, ◌<◌, ◌≡◌, true}
use pqproxy.Pool.{Config, Backends}
use pqproxy.Pipeline.{Pipes, PiqueApi, Answers}
use pqproxy.Pipeline.Served.{backend, backend_laws}
use pqproxy.Loop.{Server, Setup, FrontApi}
use pqproxy.Loop.Reached.{Fresh, Reached, Exclusive, Reached-Exclusive}

-- From a server without clients, whose pool is in order and has lent nothing, after any rounds of
-- the event loop on a pool, if the ring answers what was submitted and its submission queue is
-- never full at the end of a round: each connection that the pool has lent is held by a client, a
-- connection that a client holds is lent, two clients never hold the same one, and a client that
-- holds one is in a slot in use and is sending or reading on it.
pub whole-Exclusive :
    {S : Type 0} (api : PiqueApi S) (net : Backends) (cfg : Config)
    (answers : Pipes S → ℕ → Answers) (setup : Setup) (front : FrontApi)
    → setup.has_pool ≡ true
    → {start s : Server (Pipes S)} → Fresh (backend_laws api net cfg answers) start
    → 0 < start.sqes
    → Reached (backend api net cfg answers) setup front start s
    → Exclusive (backend api net cfg answers) s
whole-Exclusive api net cfg answers setup front pooled f h r =
    Reached-Exclusive (backend_laws api net cfg answers) setup front pooled f h r
