-- ===== src/Loop/Calm.antt =====
-- What only a client sees: the handlers' steps that change neither a lane nor the pool.
use pqproxy.Base.{
  ℕ, ◌≤◌, refl, Bool, true, false, if_cases, ◌&&◌, ◌||◌, not, List, [], ◌∷◌, ◌++◌, Option, none,
  some, Str, codes, ltb, arith,
}
use pqproxy.Pique.Wire.{
  Call, call, send_error_response, send_ready_for_query, send_command_complete,
}
use pqproxy.Pique.{Parse}
use pqproxy.Rewrite.{on_parse_ex}
use pqproxy.Outbox.{Queued, refused, queued, queue_plain_send}
use pqproxy.FeQueue.{Item, push}
use pqproxy.Loop.{Backend, Server, Setup, FrontApi, Handled, put}
use pqproxy.Loop.Output.{
  stored, queue_send, send_pieces, drain_frontend_out, send_front, send_error, send_both, feq_push,
}
use pqproxy.Loop.Schedule.{
  no_bytes, keep_answer, drain_parse, drain_execute, drain_sync, parse_slot_of,
}
use pqproxy.Loop.Leases.{Apart, note-Apart, Apart-refl, Apart-trans, put-Apart}

module _ {P : Type 0} where
  stored-Apart : (s : Server P) (i : ℕ) (q : Queued) → Apart s (stored s i q).1
  unfolding stored
  stored-Apart s i (refused o) = put-Apart s i (record (s.conns i) { out = o }) refl refl refl
  stored-Apart s i (queued ok o) =
      let a = put-Apart s i (record (s.conns i) { out = o }) refl refl refl in
      record {
        fewer =
            if_cases (λ n. n ≤ s.sqes)
              (o.send_pending && not (s.conns i).out.send_pending
                || o.poll_pending && not (s.conns i).out.poll_pending)
              (λ e. omega arith) (λ e. omega arith);
        same = a.same;
      }

  pub queue_send-Apart : (s : Server P) (i : ℕ) (bytes : Str) → Apart s (queue_send s i bytes).1
  unfolding queue_send
  queue_send-Apart s i bytes =
      stored-Apart s i (queue_plain_send (ltb 0 s.sqes) bytes (s.conns i).out)

  send_pieces-Apart :
      (s : Server P) (i : ℕ) (pieces : List Str) → Apart s (send_pieces s i pieces).1
  unfolding send_pieces
  send_pieces-Apart s i [] = put-Apart s i (record (s.conns i) { unsent = [] }) refl refl refl
  send_pieces-Apart s i ([] ∷ pieces) =
      put-Apart s i (record (s.conns i) { unsent = pieces }) refl refl refl
  send_pieces-Apart s i ((x ∷ piece) ∷ pieces) =
      let a = queue_send-Apart s i (x ∷ piece) in
      let s' = (queue_send s i (x ∷ piece)).1 in
      at (queue_send s i (x ∷ piece)).0 (Apart-trans a (send_pieces-Apart s' i pieces))
        (Apart-trans a (put-Apart s' i (record (s'.conns i) { unsent = pieces }) refl refl refl))
    where
      at :
          (sent : Bool)
          → Apart s (send_pieces (queue_send s i (x ∷ piece)).1 i pieces).1
          → Apart s (
              let s' = (queue_send s i (x ∷ piece)).1 in
              put s' i (record (s'.conns i) { unsent = pieces }))
          → Apart s
              (elim sent as (λ r. Handled P) [
                | true ↦ send_pieces (queue_send s i (x ∷ piece)).1 i pieces
                | false ↦
                    let s' = (queue_send s i (x ∷ piece)).1 in
                    (false, put s' i (record (s'.conns i) { unsent = pieces }))
              ]).1
      at true went stopped = went
      at false went stopped = stopped

  pub feq_push-Apart : (s : Server P) (i : ℕ) (item : Item) → Apart s (feq_push s i item).1
  unfolding feq_push
  feq_push-Apart s i item =
      let c = s.conns i in
      let (ok, q) = push c.queue item in
      let s' = put s i (record c { queue = q }) in
      let a = put-Apart s i (record c { queue = q }) refl refl refl in
      if_cases (λ (r : Handled P). Apart s r.1) ok (λ e. note-Apart (note-Apart a))
        (λ e. note-Apart (Apart-refl s))

  module _ (api : FrontApi) where
    pub drain_frontend_out-Apart : (s : Server P) (i : ℕ) → Apart s (drain_frontend_out api s i).1
    unfolding drain_frontend_out
    drain_frontend_out-Apart s i =
        let c = s.conns i in
        Apart-trans (put-Apart s i (record c { drained = c.frontend }) refl refl refl) (
          send_pieces-Apart (put s i (record c { drained = c.frontend })) i
            (c.unsent ++ api.outputs c.drained c.frontend))

    pub send_front-Apart : (s : Server P) (i : ℕ) (m : Call) → Apart s (send_front api s i m).1
    unfolding send_front
    send_front-Apart s i m =
        put-Apart s i (record (s.conns i) { frontend = (call api.wire (s.conns i).frontend m).1 })
          refl refl refl

    pub send_error-Apart :
        (s : Server P) (i : ℕ) (code text : Str) → Apart s (send_error api s i code text)
    unfolding send_error
    send_error-Apart s i code text =
        let s' = (send_front api s i (send_error_response (codes "ERROR") code text)).1 in
        Apart-trans (send_front-Apart s i (send_error_response (codes "ERROR") code text))
          (send_front-Apart s' i send_ready_for_query)

    pub send_both-Apart : (s : Server P) (i : ℕ) (m n : Call) → Apart s (send_both api s i m n).1
    unfolding send_both
    send_both-Apart s i m n =
        let (ok, s') = send_front api s i m in
        if_cases (λ (r : Handled P). Apart s r.1) ok
          (λ e. Apart-trans (send_front-Apart s i m) (send_front-Apart s' i n))
          (λ e. send_front-Apart s i m)

  module _ (b : Backend P) (cfg : Setup) (api : FrontApi) where
    pub keep_answer-Apart :
        (s : Server P) (i : ℕ) (out : Option Str) → Apart s (keep_answer b cfg api s i out)
    unfolding keep_answer
    keep_answer-Apart s i none = Apart-refl s
    keep_answer-Apart s i (some bytes) =
        put-Apart s i (record (s.conns i) { be_resp = bytes }) refl refl refl

    pub drain_parse-Apart :
        (s : Server P) (i : ℕ) (p : Parse) → Apart s (drain_parse b cfg api s i p)
    unfolding drain_parse
    drain_parse-Apart s i p =
        let c = s.conns i in
        let (ok, cache, w) =
          on_parse_ex api.prepare api.wire c.frontend c.cache p
            (parse_slot_of c.id cfg.identity_slot) cfg.identity_param_name in
        let s' = put s i (record c { cache = cache; frontend = w }) in
        let a = put-Apart s i (record c { cache = cache; frontend = w }) refl refl refl in
        if_cases (Apart s) ok (λ e. a)
          (λ e.
            Apart-trans a
              (send_error-Apart api s' i (codes "26000") (codes "prepared statement cache full")))

    pub drain_execute-Apart : (s : Server P) (i : ℕ) → Apart s (drain_execute b cfg api s i)
    unfolding drain_execute
    drain_execute-Apart s i =
        if_cases (Apart s) (not cfg.has_pool || no_bytes (s.conns i).be_resp)
          (λ e. send_front-Apart api s i (send_command_complete (codes "SELECT 0")))
          (λ e. Apart-refl s)

    pub drain_sync-Apart : (s : Server P) (i : ℕ) → Apart s (drain_sync b cfg api s i)
    unfolding drain_sync
    drain_sync-Apart s i =
        let s' = (queue_send s i (s.conns i).be_resp).1 in
        if_cases (Apart s) (no_bytes (s.conns i).be_resp)
          (λ e. send_front-Apart api s i send_ready_for_query)
          (λ e.
            Apart-trans (queue_send-Apart s i (s.conns i).be_resp)
              (put-Apart s' i (record (s'.conns i) { be_resp = [] }) refl refl refl))
