-- ===== src/Loop/Frontend.antt =====
-- src/iouring_loop.c, process_frontend: what each message of a client does, at once or, while a
-- pipeline runs, by the request queue. The messages are those that pique found in the input.
use pqproxy.Base.{
  ℕ, Bool, true, false, ◌&&◌, ◌||◌, not, List, [], ◌∷◌, Option, some, Str, codes, if◌then◌else◌,
}
use pqproxy.Pique.{Parse}
use pqproxy.Pique.Wire.{
  Bind, send_auth_ok, send_ready_for_query, send_command_complete, send_error_response,
}
use pqproxy.Rewrite.{on_simple_query}
use pqproxy.FeQueue.{feq_parse, feq_bind, feq_execute, feq_sync, feq_query}
use pqproxy.Loop.{Backend, cs_closing, Server, Setup, FrontApi, Handled, put, put_pool}
use pqproxy.Loop.Output.{
  queue_send, drain_frontend_out, send_front, send_error, send_both, feq_push,
}
use pqproxy.Loop.Schedule.{
  is_idle, no_bytes, park_for_backend, begin_and_launch, bind_blocking, drain_parse,
}
use pqproxy.Loop.Pipelines.{fail}

-- protocol_event_t, as far as the loop tells its types apart.
pub data Event : Type 0 where
  ev_startup ev_execute ev_sync ev_terminate ev_other : Event
  ev_parse : Parse → Event
  ev_bind : Bind → Event
  ev_query : Str → Event

module _ {P : Type 0} (b : Backend P) (cfg : Setup) (api : FrontApi) where
  -- A message that finds the request queue full is refused with an error.
  unfoldable pub refuse : Server P → ℕ → Server P
  refuse s i = send_error api s i (codes "53300") (codes "frontend request queue full")

  -- While a pipeline runs: the message is queued.
  unfoldable pub queue_event : Server P → ℕ → Event → Server P
  unfolding refuse
  queue_event s i (ev_parse p) =
      let (ok, s') = feq_push s i (feq_parse p) in
      if ok
      then s'
      else (send_front api s' i (
          send_error_response (codes "ERROR") (codes "53300")
            (codes "frontend request queue full"))).1
  queue_event s i (ev_bind bind) =
      let (ok, s') = feq_push s i (feq_bind bind) in if ok then s' else refuse s' i
  queue_event s i ev_execute =
      let (ok, s') = feq_push s i feq_execute in
      if ok then s' else put s' i (record (s'.conns i) { got_execute = true })
  queue_event s i ev_sync =
      let s' = (feq_push s i feq_sync).1 in put s' i (record (s'.conns i) { got_sync = true })
  queue_event s i (ev_query sql) =
      let (ok, s') = feq_push s i (feq_query sql) in if ok then s' else refuse s' i
  queue_event s i _ = s

  -- A Bind that found no backend is queued, and the connection parked.
  unfoldable pub park_bind : Server P → ℕ → Bind → Handled P
  park_bind s i bind =
      let (queued, s') = feq_push s i (feq_bind bind) in
      let (parked, s'') = park_for_backend b cfg s' i in
      if not cfg.fair_schedule then (false, s) else if queued then (parked, s'') else (false, s')

  unfoldable pub on_bind_event : Server P → ℕ → Bind → Handled P
  unfolding park_bind
  on_bind_event s i bind =
      let c = s.conns i in
      let s0 = put s i (record c { be_resp = []; got_execute = false; got_sync = false }) in
      let (started, s1) = begin_and_launch b cfg (λ s i. fail b cfg api s i) false s0 i bind in
      let (parked, s2) = park_bind s1 i bind in
      if not (cfg.has_pool && c.identity_ready && cfg.async_backend)
      then bind_blocking b cfg api s0 i bind
      else if started
      then (true, s1)
      else if parked
      then (true, s2)
      else bind_blocking b cfg api s2 i bind

  unfoldable pub on_sync_event : Server P → ℕ → Handled P
  on_sync_event s i =
      let (ok, s') = queue_send s i (s.conns i).be_resp in
      if no_bytes (s.conns i).be_resp
      then send_front api s i send_ready_for_query
      else if ok
      then (true, put s' i (record (s'.conns i) { be_resp = [] }))
      else (false, s')

  -- What the answer of a blocking query does.
  unfoldable pub forward_answer : Server P → ℕ → Option Str → Handled P
  forward_answer s i (some (byte ∷ bytes)) = queue_send s i (byte ∷ bytes)
  forward_answer s i _ =
      send_both api s i
        (send_error_response (codes "ERROR") (codes "08006")
          (codes "simple Query backend forward failed"))
        send_ready_for_query

  unfoldable pub on_query_event : Server P → ℕ → Str → Handled P
  unfolding forward_answer
  on_query_event s i sql =
      let c = s.conns i in
      let (ok, w) = on_simple_query api.wire c.frontend cfg.reject_simple_query sql in
      let (out, p) = b.exec_query s.pool c.id.group sql in
      if cfg.reject_simple_query || not cfg.has_pool || not c.identity_ready
      then (ok, put s i (record c { frontend = w }))
      else forward_answer (put_pool s p) i out

  -- With no pipeline running.
  unfoldable pub act : Server P → ℕ → Event → Handled P
  unfolding on_bind_event on_sync_event on_query_event
  act s i ev_startup = send_both api s i send_auth_ok send_ready_for_query
  act s i (ev_parse p) = (true, drain_parse b cfg api s i p)
  act s i (ev_bind bind) = on_bind_event s i bind
  act s i ev_execute =
      if not cfg.has_pool || no_bytes (s.conns i).be_resp
      then send_front api s i (send_command_complete (codes "SELECT 0"))
      else (true, s)
  act s i ev_sync = on_sync_event s i
  act s i ev_terminate = (true, put s i (record (s.conns i) { state = cs_closing }))
  act s i (ev_query sql) = on_query_event s i sql
  act s i ev_other = (true, s)

  -- Startup and Terminate are never queued.
  abbrev pub is_urgent : Event → Bool
  is_urgent ev_startup = true
  is_urgent ev_terminate = true
  is_urgent _ = false

  unfoldable pub on_event : Server P → ℕ → Event → Handled P
  unfolding queue_event act
  on_event s i ev =
      if is_idle (s.conns i).be_wait || is_urgent ev then act s i ev else (true, queue_event s i ev)

  -- process_frontend
  unfoldable pub process_frontend : Server P → ℕ → List Event → Handled P
  unfolding on_event
  process_frontend s i [] = drain_frontend_out api s i
  process_frontend s i (ev ∷ events) = elim (on_event s i ev).0 [
    | true ↦ process_frontend (on_event s i ev).1 i events
    | false ↦ (false, (on_event s i ev).1)
  ]
