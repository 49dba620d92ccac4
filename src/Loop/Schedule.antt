-- ===== src/Loop/Schedule.antt =====
-- src/iouring_loop.c, work for the backends: submit_be_send and submit_be_recv, drain_fe_queue,
-- fair_schedule_waiters, after_backend_release and backend_async_fail. These call each other: a start
-- that finds no submission entry fails, which starts others. Depth counts the starts that are nested.
use pqproxy.Base.{
  ℕ, ◌-◌, Bool, true, false, ◌&&◌, ◌||◌, not, [], ◌∷◌, Option, none, some, ℤ, is_nonneg, Str, codes,
  ◌==◌, if◌then◌else◌,
}
use pqproxy.Pique.{Parse}
use pqproxy.Pique.Wire.{Bind, send_bind_complete, send_ready_for_query, send_command_complete}
use pqproxy.StmtCache.{get}
use pqproxy.Identity.{Identity}
use pqproxy.Rewrite.{on_parse_ex, on_simple_query}
use pqproxy.FeQueue.{
  Item, feq_none, feq_parse, feq_bind, feq_query, feq_execute, feq_sync, feq_terminate, push_front,
}
use pqproxy.WaitRing.{waiters_push}
use pqproxy.Metrics.{inc_fair_waits, set_pool_waiters}
use pqproxy.Loop.{
  Backend, ConnState, cs_free, cs_closing, BeWait, be_idle, be_sending, be_reading, be_waiting_pool,
  Server, Setup, FrontApi, Handled, note, put, put_lane, put_pool,
}
use pqproxy.Loop.Output.{queue_send, send_front, send_error}

abbrev pub is_idle : BeWait → Bool
is_idle be_idle = true
is_idle _ = false

abbrev pub is_waiting : BeWait → Bool
is_waiting be_waiting_pool = true
is_waiting _ = false

-- BE_SENDING or BE_READING
abbrev pub is_working : BeWait → Bool
is_working be_sending = true
is_working be_reading = true
is_working _ = false

abbrev pub is_free : ConnState → Bool
is_free cs_free = true
is_free _ = false

abbrev pub is_closing : ConnState → Bool
is_closing cs_closing = true
is_closing _ = false

abbrev pub is_some : {A : Type 0} → Option A → Bool
is_some none = false
is_some (some a) = true

abbrev pub no_bytes : Str → Bool
no_bytes [] = true
no_bytes (b ∷ bytes) = false

-- The slot for a Parse: the identity's, else the configured one.
abbrev pub parse_slot_of : Identity → ℤ → ℤ
parse_slot_of id slot = if is_nonneg id.identity_slot then id.identity_slot else slot

module _ {P : Type 0} (b : Backend P) (cfg : Setup) where
  -- park_for_backend; true for 0.
  unfoldable pub park_for_backend : Server P → ℕ → Handled P
  park_for_backend s i =
      let lane = (s.conns i).lane in
      let (ok, w) = waiters_push cfg.fair_schedule s.waiters i in
      let s' = put_lane (record s { waiters = w }) i (record lane { be_wait = be_waiting_pool }) in
      if not ok
      then (false, put_lane s i (record lane { be_wait = be_idle }))
      else if w.count == s.waiters.count
      then (true, s')
      else (true, note (set_pool_waiters w.count) (note inc_fair_waits s'))

  unfoldable pub submit_be_recv : Server P → ℕ → Handled P
  submit_be_recv s i =
      let lane = (s.conns i).lane in
      if not (is_some lane.be) || lane.be_recv_pending
      then (true, s)
      else if s.sqes == 0
      then (false, s)
      else (
        true,
        put_lane (record s { sqes = s.sqes - 1 }) i
            (record lane { be_recv_pending = true; be_wait = be_reading }),
      )

  -- submit_be_send, with what async_send_ptr gives.
  unfoldable pub submit_bytes : Server P → ℕ → Str → Handled P
  unfolding submit_be_recv
  submit_bytes s i [] =
      submit_be_recv (put_lane s i (record (s.conns i).lane { be_wait = be_reading })) i
  submit_bytes s i (byte ∷ bytes) = if s.sqes == 0 then (false, s) else (
    true,
    put_lane (record s { sqes = s.sqes - 1 }) i
        (record (s.conns i).lane { be_send_pending = true; be_wait = be_sending }),
  )

  unfoldable pub submit_be_send : Server P → ℕ → Handled P
  unfolding submit_bytes
  submit_be_send s i = elim (s.conns i).be [
    | none ↦ (true, s)
    | some k ↦
        if (s.conns i).be_send_pending then (true, s) else submit_bytes s i (b.send_ptr s.pool k)
  ]

  -- `pqproxy_backend_async_finish (srv->pool, c->be, failed); c->be = NULL`, if c->be is set.
  unfoldable pub finish_be : Server P → ℕ → Bool → Server P
  finish_be s i failed = elim (s.conns i).be [
    | none ↦ s
    | some k ↦
        put_lane (put_pool s (b.finish s.pool k failed)) i (record (s.conns i).lane { be = none })
  ]

  -- A pipeline starts on connection `k`: the end of start_async_bind_from_event and, with
  -- `from_queue`, of start_async_bind_from_queue.
  unfoldable pub launch : (Server P → ℕ → Handled P) → Bool → Server P → ℕ → ℕ → Handled P
  unfolding submit_be_send
  launch fail from_queue s i k =
      let c = s.conns i in
      let (ok, s') =
        submit_be_send
          (put s i (record c {
            lane = record c.lane { be = some k };
            be_resp = [];
            got_execute = c.got_execute && not from_queue;
            got_sync = c.got_sync && not from_queue;
          }))
          i in
      if ok then (true, s') else fail s' i

  -- The call of async_begin, and the launch if it returned 0.
  unfoldable pub begin_and_launch :
      (Server P → ℕ → Handled P) → Bool → Server P → ℕ → Bind → Handled P
  unfolding launch
  begin_and_launch fail from_queue s i bind =
      let (conn, p) = b.begin s.pool (s.conns i).cache bind (s.conns i).id in
      elim conn [
        | none ↦ (false, put_pool s p)
        | some k ↦ launch fail from_queue (put_pool s p) i k
      ]

  unfoldable pub start_async_bind_from_queue :
      (Server P → ℕ → Handled P) → Server P → ℕ → Bind → Handled P
  unfolding begin_and_launch
  start_async_bind_from_queue fail s i bind = elim (get (s.conns i).cache bind.statement) [
    | none ↦ (false, s)
    | some prep ↦ begin_and_launch fail true s i bind
  ]

  module _ (api : FrontApi) where
    -- The cases of drain_fe_queue: whether the loop may go on, and the server.
    unfoldable pub drain_parse : Server P → ℕ → Parse → Server P
    drain_parse s i p =
        let c = s.conns i in
        let (ok, cache, w) =
          on_parse_ex api.prepare api.wire c.frontend c.cache p
            (parse_slot_of c.id cfg.identity_slot) cfg.identity_param_name in
        let s' = put s i (record c { cache = cache; frontend = w }) in
        if ok
        then s'
        else send_error api s' i (codes "26000") (codes "prepared statement cache full")

    -- The answer of a blocking pipeline; what a failed one writes over be_resp is not modelled.
    unfoldable pub keep_answer : Server P → ℕ → Option Str → Server P
    keep_answer s i none = s
    keep_answer s i (some bytes) = put s i (record (s.conns i) { be_resp = bytes })

    -- The blocking fallback: exec_bind if there is a pool, and the acknowledgement.
    unfoldable pub bind_blocking : Server P → ℕ → Bind → Handled P
    unfolding keep_answer
    bind_blocking s i bind =
        let c = s.conns i in
        let (out, p) = b.exec_bind s.pool c.cache bind c.id in
        let s' = if cfg.has_pool && c.identity_ready then keep_answer (put_pool s p) i out else s in
        send_front api s' i send_bind_complete

    -- A Bind that found no backend goes back to the front, and the connection waits.
    unfoldable pub put_back : Server P → ℕ → Bind → Handled P
    unfolding park_for_backend
    put_back s i bind =
        let c = s.conns i in
        let (ok, q) = push_front c.queue (feq_bind bind) in
        if cfg.fair_schedule && ok
        then (true, (park_for_backend (put s i (record c { queue = q })) i).1)
        else (false, s)

    unfoldable pub drain_bind : (Server P → ℕ → Handled P) → Server P → ℕ → Bind → Handled P
    unfolding start_async_bind_from_queue put_back bind_blocking
    drain_bind fail s i bind =
        let (started, s1) = start_async_bind_from_queue fail s i bind in
        let (parked, s2) = put_back s1 i bind in
        if not (cfg.has_pool && (s.conns i).identity_ready && cfg.async_backend)
        then (true, (bind_blocking s i bind).1)
        else if started
        then (false, s1)
        else if parked
        then (false, s2)
        else (true, (bind_blocking s1 i bind).1)

    unfoldable pub drain_execute : Server P → ℕ → Server P
    drain_execute s i =
        if not cfg.has_pool || no_bytes (s.conns i).be_resp
        then (send_front api s i (send_command_complete (codes "SELECT 0"))).1
        else s

    unfoldable pub drain_sync : Server P → ℕ → Server P
    drain_sync s i =
        let s' = (queue_send s i (s.conns i).be_resp).1 in
        if no_bytes (s.conns i).be_resp
        then (send_front api s i send_ready_for_query).1
        else put s' i (record (s'.conns i) { be_resp = [] })

    unfoldable pub drain_query : Server P → ℕ → Str → Server P
    drain_query s i sql =
        let c = s.conns i in
        let (ok, w) = on_simple_query api.wire c.frontend cfg.reject_simple_query sql in
        let (out, p) = b.exec_query s.pool c.id.group sql in
        let failed =
          send_error api (put_pool s p) i (codes "08006")
            (codes "simple Query backend forward failed") in
        if cfg.reject_simple_query || not cfg.has_pool || not c.identity_ready
        then put s i (record c { frontend = w })
        else elim out [
          | none ↦ failed
          | some [] ↦ failed
          | some (byte ∷ bytes) ↦ (queue_send (put_pool s p) i (byte ∷ bytes)).1
        ]

    unfoldable pub drain_item : (Server P → ℕ → Handled P) → Server P → ℕ → Item → Handled P
    unfolding drain_parse drain_bind drain_execute drain_sync drain_query
    drain_item fail s i (feq_parse p) = (true, drain_parse s i p)
    drain_item fail s i (feq_bind bind) = drain_bind fail s i bind
    drain_item fail s i feq_execute = (true, drain_execute s i)
    drain_item fail s i feq_sync = (true, drain_sync s i)
    drain_item fail s i (feq_query sql) = (true, drain_query s i sql)
    drain_item fail s i feq_terminate = (true, put s i (record (s.conns i) { state = cs_closing }))
    drain_item fail s i feq_none = (true, s)
