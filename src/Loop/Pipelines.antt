-- ===== src/Loop/Pipelines.antt =====
-- src/iouring_loop.c, the completions of the backends: backend_async_complete, on_be_send_cqe and
-- on_be_recv_cqe.
use pqproxy.Base.{ℕ, Bool, true, false, ◌&&◌, not, [], none, some, Str, if◌then◌else◌}
use pqproxy.Pique.Wire.{send_bind_complete, send_ready_for_query}
use pqproxy.FeQueue.{clear_all}
use pqproxy.Recv.{Ending, failed, waits, completes}
use pqproxy.Metrics.{inc_be_ok, inc_be_fail}
use pqproxy.Loop.{Backend, Server, Setup, FrontApi, Handled, note, put, put_lane, put_pool}
use pqproxy.Loop.Output.{queue_send, drain_frontend_out, send_front}
use pqproxy.Loop.Schedule.{no_bytes, submit_be_send, submit_be_recv, finish_be}
use pqproxy.Loop.Rounds.{after_backend_release, backend_async_fail, fail_at}

-- A start fails inside another one only for another client, and there are 256 of them.
abbrev pub max_depth : ℕ
max_depth = 257

-- What the ring reports of a send: an error, to try again, or a number of bytes.
pub data Sent : Type 0 where
  send_error send_again : Sent
  sent : ℕ → Sent

module _ {P : Type 0} (b : Backend P) (cfg : Setup) (api : FrontApi) where
  -- Whether the pipeline saw an error.
  unfoldable pub had_error : Server P → ℕ → Bool
  had_error s i = elim (s.conns i).be [ none ↦ false | some k ↦ b.saw_error s.pool k ]

  -- After an error the queued work is dropped, else the Bind is acknowledged.
  unfoldable pub acknowledge : Server P → ℕ → Bool → Handled P
  acknowledge s i true = (
    true,
    note inc_be_fail (put s i (record (s.conns i) { queue = clear_all; got_execute = false })),
  )
  acknowledge s i false = send_front api (note inc_be_ok s) i send_bind_complete

  -- be_resp is sent, and forgotten unless that failed; `sync` is got_sync afterwards.
  unfoldable pub send_answer : Server P → ℕ → Bool → Handled P
  send_answer s i sync =
      let (ok, s') = queue_send s i (s.conns i).be_resp in
      if ok
      then (true, put s' i (record (s'.conns i) { be_resp = []; got_sync = sync }))
      else (false, s')

  -- The answer of the pipeline, after the acknowledgement.
  unfoldable pub deliver : Server P → ℕ → Bool → Handled P
  unfolding send_answer
  deliver s i error =
      let c = s.conns i in
      if c.got_sync && not (no_bytes c.be_resp)
      then send_answer s i c.got_sync
      else if error && not (no_bytes c.be_resp)
      then send_answer s i false
      else if c.got_sync && no_bytes c.be_resp
      then send_front api s i send_ready_for_query
      else (true, s)

  -- backend_async_complete, up to the release.
  unfoldable pub answer : Server P → ℕ → Handled P
  unfolding had_error acknowledge deliver
  answer s i =
      let error = had_error s i in
      let (ok1, s1) = acknowledge s i error in
      let (ok2, s2) = deliver s1 i error in
      let (ok3, s3) = drain_frontend_out api s2 i in
      if not ok1 then (false, s1) else if not ok2 then (false, s2) else (ok3, s3)

  unfoldable pub backend_async_complete : Server P → ℕ → Handled P
  unfolding answer
  backend_async_complete s i =
      let (ok, s') = answer s i in
      if ok
      then after_backend_release b cfg api (fail_at b cfg api max_depth)
          (finish_be b cfg s' i false) i
      else (false, s')

  -- backend_async_fail
  unfoldable pub fail : Server P → ℕ → Handled P
  fail s i = backend_async_fail b cfg api (fail_at b cfg api max_depth) s i

  unfoldable pub on_be_send_cqe : Server P → ℕ → ℕ → Sent → Handled P
  unfolding fail
  on_be_send_cqe s i k send_error =
      fail (put_lane s i (record (s.conns i).lane { be_send_pending = false })) i
  on_be_send_cqe s i k send_again =
      submit_be_send b cfg (put_lane s i (record (s.conns i).lane { be_send_pending = false })) i
  on_be_send_cqe s i k (sent n) =
      submit_be_send b cfg
        (put_lane (put_pool s (b.advance s.pool k n)) i
          (record (s.conns i).lane { be_send_pending = false }))
        i

  unfoldable pub on_received : Server P → ℕ → Ending → Handled P
  unfolding fail backend_async_complete
  on_received s i failed = fail s i
  on_received s i waits = submit_be_recv b cfg s i
  on_received s i completes = backend_async_complete s i

  -- `bytes` were received on the connection `k`; none for an error, or for the end.
  unfoldable pub on_be_recv_cqe : Server P → ℕ → ℕ → Str → Handled P
  unfolding fail on_received
  on_be_recv_cqe s i k bytes =
      let c = s.conns i in
      let s' = put_lane s i (record c.lane { be_recv_pending = false }) in
      let (ending, out, p) = b.on_recv s.pool k bytes c.be_resp in
      if no_bytes bytes
      then fail s' i
      else on_received (put (put_pool s' p) i (record (s'.conns i) { be_resp = out })) i ending
