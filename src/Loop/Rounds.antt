-- ===== src/Loop/Rounds.antt =====
-- src/iouring_loop.c, the rounds: drain_fe_queue over the queue of a client, fair_schedule_waiters
-- over the wait ring, after_backend_release and backend_async_fail.
use pqproxy.Base.{
  ℕ, zero, suc, true, false, ◌&&◌, ◌||◌, not, [], none, some, codes, ltb, leb, ◌==◌, if◌then◌else◌,
}
use pqproxy.FeQueue.{pop}
use pqproxy.WaitRing.{max_conns, waiters_take}
use pqproxy.Metrics.{inc_be_fail, inc_fair_schedules, set_pool_waiters}
use pqproxy.Loop.{Backend, be_idle, Server, Setup, FrontApi, Handled, note, put, put_lane}
use pqproxy.Loop.Output.{drain_frontend_out, send_error}
use pqproxy.Loop.Schedule.{
  is_idle, is_waiting, is_working, is_free, park_for_backend, finish_be, drain_item,
}

module _ {P : Type 0} (b : Backend P) (cfg : Setup) (api : FrontApi) where
  -- The loop of drain_fe_queue; each round takes a message, so their number is enough.
  unfoldable pub drain_from : (Server P → ℕ → Handled P) → ℕ → Server P → ℕ → Server P
  unfolding drain_item
  drain_from fail zero s i = s
  drain_from fail (suc n) s i = elim (is_idle (s.conns i).be_wait) [
    | false ↦ s
    | true ↦ elim (pop (s.conns i).queue).0 [
      | none ↦ s
      | some item ↦
          let c = s.conns i in
          let popped = put s i (record c { queue = (pop c.queue).1 }) in
          elim (drain_item b cfg api fail popped i item).0 [
            | false ↦ (drain_item b cfg api fail popped i item).1
            | true ↦ drain_from fail n (drain_item b cfg api fail popped i item).1 i
          ]
    ]
  ]

  -- drain_fe_queue
  unfoldable pub drain_fe_queue : (Server P → ℕ → Handled P) → Server P → ℕ → Handled P
  unfolding drain_from
  drain_fe_queue fail s i =
      let c = s.conns i in
      let s' =
        drain_from fail c.queue.count (put_lane s i (record c.lane { draining_queue = true })) i in
      if c.draining_queue
      then (true, s)
      else (drain_frontend_out api
          (put_lane s' i (record (s'.conns i).lane { draining_queue = false })) i)

  -- The loop of fair_schedule_waiters for a waiter.
  unfoldable pub grant : (Server P → ℕ → Handled P) → Server P → ℕ → Server P
  unfolding drain_fe_queue
  grant fail s i =
      let c = s.conns i in
      let idle = put_lane s i (record c.lane { be_wait = be_idle }) in
      let (ok, s') = drain_fe_queue fail idle i in
      let c' = s'.conns i in
      if is_free c.state || not (is_waiting c.be_wait)
      then s
      else if c.queue.count == 0
      then idle
      else if not ok
      then s'
      else if is_working c'.be_wait
      then note inc_fair_schedules s'
      else if is_idle c'.be_wait && ltb 0 c'.queue.count
      then (park_for_backend b cfg s' i).1
      else s'

  unfoldable pub fair_from : (Server P → ℕ → Handled P) → ℕ → Server P → Server P
  unfolding grant
  fair_from fail zero s = s
  fair_from fail (suc n) s = elim (waiters_take s.waiters).0 [
    | none ↦ s
    | some i ↦
        let w = (waiters_take s.waiters).1 in
        let s' = note (set_pool_waiters w.count) (record s { waiters = w }) in
        fair_from fail n (if leb max_conns i then s' else grant fail s' i)
  ]

  -- fair_schedule_waiters; nobody reads how many it started.
  unfoldable pub fair_schedule_waiters : (Server P → ℕ → Handled P) → Server P → Server P
  unfolding fair_from
  fair_schedule_waiters fail s =
      if not cfg.fair_schedule || not cfg.has_pool || not cfg.async_backend
      then s
      else fair_from fail s.waiters.count s

  unfoldable pub after_backend_release : (Server P → ℕ → Handled P) → Server P → ℕ → Handled P
  unfolding fair_schedule_waiters
  after_backend_release fail s i =
      let c = s.conns i in
      let idle = put s i (record c {
        lane = record c.lane { be_wait = be_idle };
        got_execute = false;
        got_sync = false;
      }) in
      let s' =
        if cfg.fair_schedule && ltb 0 s.waiters.count
        then fair_schedule_waiters fail idle
        else idle in
      if is_idle (s'.conns i).be_wait && ltb 0 (s'.conns i).queue.count
      then drain_fe_queue fail s' i
      else drain_frontend_out api s' i

  -- backend_async_fail, up to the release.
  unfoldable pub report_failure : Server P → ℕ → Handled P
  report_failure s i =
      let s' = finish_be b cfg (note inc_be_fail s) i true in
      drain_frontend_out api
        (send_error api (put s' i (record (s'.conns i) { be_resp = [] })) i (codes "08006")
          (codes "backend pipeline failed"))
        i

  unfoldable pub backend_async_fail : (Server P → ℕ → Handled P) → Server P → ℕ → Handled P
  unfolding report_failure after_backend_release
  backend_async_fail fail s i =
      let (ok, s') = report_failure s i in
      if ok then after_backend_release fail s' i else (false, s')

  -- backend_async_fail with at most this many starts that fail inside each other.
  unfoldable pub fail_at : ℕ → Server P → ℕ → Handled P
  unfolding backend_async_fail
  fail_at zero s i = report_failure s i
  fail_at (suc n) s i = backend_async_fail (fail_at n) s i
