-- ===== src/Loop/Output.antt =====
-- src/iouring_loop.c, what the handlers do with a client's context and socket: queue_plain_send with
-- the submission queue, drain_frontend_out, and the messages that a handler sends.
use pqproxy.Base.{
  ℕ, ◌-◌, true, false, ◌&&◌, ◌||◌, not, List, [], ◌∷◌, ◌++◌, Str, codes, ltb, if◌then◌else◌,
}
use pqproxy.Pique.Wire.{Call, call, send_error_response, send_ready_for_query}
use pqproxy.Outbox.{Outbox, Queued, refused, queued, queue_plain_send}
use pqproxy.FeQueue.{Item, push}
use pqproxy.Metrics.{inc_fe_q_enq, inc_fe_q_full, note_fe_q_depth}
use pqproxy.Loop.{FrontApi, Server, Handled, note, put}

-- The entries left after a submission: one fewer if a flag of the outbox was set.
abbrev pub entries_left : Outbox → Outbox → ℕ → ℕ
entries_left before after n =
    if after.send_pending && not before.send_pending
      || after.poll_pending && not before.poll_pending
    then n - 1
    else n

module _ {P : Type 0} where
  unfoldable pub stored : Server P → ℕ → Queued → Handled P
  stored s i (refused o) = (false, put s i (record (s.conns i) { out = o }))
  stored s i (queued ok o) = (
    ok,
    record (put s i (record (s.conns i) { out = o })) {
      sqes = entries_left (s.conns i).out o s.sqes;
    },
  )

  -- queue_plain_send; true for 0.
  unfoldable pub queue_send : Server P → ℕ → Str → Handled P
  unfolding stored
  queue_send s i bytes = stored s i (queue_plain_send (ltb 0 s.sqes) bytes (s.conns i).out)

  -- The loop of drain_frontend_out. A piece that is refused is lost, and the others stay.
  unfoldable pub send_pieces : Server P → ℕ → List Str → Handled P
  unfolding queue_send
  send_pieces s i [] = (true, put s i (record (s.conns i) { unsent = [] }))
  send_pieces s i ([] ∷ pieces) = (true, put s i (record (s.conns i) { unsent = pieces }))
  send_pieces s i ((b ∷ piece) ∷ pieces) = elim (queue_send s i (b ∷ piece)).0 [
    | true ↦ send_pieces (queue_send s i (b ∷ piece)).1 i pieces
    | false ↦
        let s' = (queue_send s i (b ∷ piece)).1 in
        (false, put s' i (record (s'.conns i) { unsent = pieces }))
  ]

  module _ (api : FrontApi) where
    unfoldable pub drain_frontend_out : Server P → ℕ → Handled P
    unfolding send_pieces
    drain_frontend_out s i =
        let c = s.conns i in
        send_pieces (put s i (record c { drained = c.frontend })) i
          (c.unsent ++ api.outputs c.drained c.frontend)

    -- Queue a message for the client.
    unfoldable pub send_front : Server P → ℕ → Call → Handled P
    send_front s i message =
        let (ok, w) = call api.wire (s.conns i).frontend message in
        (ok, put s i (record (s.conns i) { frontend = w }))

    -- Two messages, the second one whatever the first gave.
    unfoldable pub send_error : Server P → ℕ → Str → Str → Server P
    unfolding send_front
    send_error s i code text =
        (send_front (send_front s i (send_error_response (codes "ERROR") code text)).1 i
          send_ready_for_query).1

    -- Two messages, the second one if the first returned 0.
    unfoldable pub send_both : Server P → ℕ → Call → Call → Handled P
    unfolding send_front
    send_both s i first second =
        let (ok, s') = send_front s i first in if ok then send_front s' i second else (false, s')

  -- feq_push, with its metrics.
  unfoldable pub feq_push : Server P → ℕ → Item → Handled P
  feq_push s i item =
      let c = s.conns i in
      let (ok, q) = push c.queue item in
      let s' = put s i (record c { queue = q }) in
      if ok
      then (true, note (note_fe_q_depth q.count) (note inc_fe_q_enq s'))
      else (false, note inc_fe_q_full s)
