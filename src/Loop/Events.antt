-- ===== src/Loop/Events.antt =====
-- The messages of a client keep the leases: process_frontend.
use pqproxy.Base.{
  ℕ, ◌≡◌, refl, Bool, true, false, true_not_false, if_cases, ◌&&◌, ◌||◌, not, List, [], ◌∷◌, Option,
  none, some, Str, codes, ◌==◌,
}
use pqproxy.Pique.Wire.{
  Bind, send_auth_ok, send_ready_for_query, send_command_complete, send_error_response,
}
use pqproxy.Rewrite.{on_simple_query}
use pqproxy.WaitRing.{waiters_push}
use pqproxy.FeQueue.{feq_parse, feq_bind, feq_execute, feq_sync, feq_query}
use pqproxy.Loop.{
  Backend, be_idle, cs_closing, Lane, Client, Server, Setup, FrontApi, Handled, put, put_pool,
}
use pqproxy.Loop.Output.{queue_send, feq_push}
use pqproxy.Loop.Schedule.{is_idle, no_bytes, park_for_backend, begin_and_launch, bind_blocking}
use pqproxy.Loop.Pipelines.{fail}
use pqproxy.Loop.Frontend.{
  Event, ev_startup, ev_execute, ev_sync, ev_terminate, ev_other, ev_parse, ev_bind, ev_query,
  refuse, queue_event, park_bind, on_bind_event, on_sync_event, forward_answer, on_query_event, act,
  is_urgent, on_event, process_frontend,
}
use pqproxy.Loop.Leases.{
  Watched, Sure, Apart, Apart-refl, Apart-trans, put-Apart, Apart-Sure, Steady, at_slot,
}
use pqproxy.Loop.Moves.{repool-Steady}
use pqproxy.Loop.Renews.{put-Steady}
use pqproxy.Loop.Calm.{
  queue_send-Apart, drain_frontend_out-Apart, send_front-Apart, send_error-Apart, send_both-Apart,
  feq_push-Apart, drain_parse-Apart,
}
use pqproxy.Loop.Starts.{Ready, idle_rests}
use pqproxy.Loop.Begins.{begin_and_launch-Started}
use pqproxy.Loop.Drains.{Open-Steady, waits-Steady, park-Steady, bind_blocking-Ready}
use pqproxy.Loop.Failures.{fail-Spent}

module _ {P : Type 0} (b : Backend P) (cfg : Setup) (api : FrontApi) where
  refuse-Apart : (s : Server P) (i : ℕ) → Apart s (refuse b cfg api s i)
  unfolding refuse
  refuse-Apart s i = send_error-Apart api s i (codes "53300") (codes "frontend request queue full")

  queue_event-Apart : (s : Server P) (i : ℕ) (ev : Event) → Apart s (queue_event b cfg api s i ev)
  unfolding queue_event
  queue_event-Apart s i (ev_parse p) =
      let r = feq_push s i (feq_parse p) in
      let a = feq_push-Apart s i (feq_parse p) in
      if_cases (Apart s) r.0 (λ e. a)
        λ e. Apart-trans a (
          send_front-Apart api r.1 i (
            send_error_response (codes "ERROR") (codes "53300")
              (codes "frontend request queue full")))
  queue_event-Apart s i (ev_bind bind) =
      let r = feq_push s i (feq_bind bind) in
      let a = feq_push-Apart s i (feq_bind bind) in
      if_cases (Apart s) r.0 (λ e. a) (λ e. Apart-trans a (refuse-Apart r.1 i))
  queue_event-Apart s i ev_execute =
      let r = feq_push s i feq_execute in
      let a = feq_push-Apart s i feq_execute in
      if_cases (Apart s) r.0 (λ e. a)
        (λ e.
          Apart-trans a
            (put-Apart r.1 i (record (r.1.conns i) { got_execute = true }) refl refl refl))
  queue_event-Apart s i ev_sync =
      let s' = (feq_push s i feq_sync).1 in
      Apart-trans (feq_push-Apart s i feq_sync)
        (put-Apart s' i (record (s'.conns i) { got_sync = true }) refl refl refl)
  queue_event-Apart s i (ev_query sql) =
      let r = feq_push s i (feq_query sql) in
      let a = feq_push-Apart s i (feq_query sql) in
      if_cases (Apart s) r.0 (λ e. a) (λ e. Apart-trans a (refuse-Apart r.1 i))
  queue_event-Apart s i ev_startup = Apart-refl s
  queue_event-Apart s i ev_terminate = Apart-refl s
  queue_event-Apart s i ev_other = Apart-refl s

  on_sync-Apart : (s : Server P) (i : ℕ) → Apart s (on_sync_event b cfg api s i).1
  unfolding on_sync_event
  on_sync-Apart s i =
      let r = queue_send s i (s.conns i).be_resp in
      let a = queue_send-Apart s i (s.conns i).be_resp in
      if_cases (λ (t : Handled P). Apart s t.1) (no_bytes (s.conns i).be_resp)
        (λ e. send_front-Apart api s i send_ready_for_query)
        λ e.
          if_cases (λ (t : Handled P). Apart s t.1) r.0
            (λ f.
              Apart-trans a
                (put-Apart r.1 i (record (r.1.conns i) { be_resp = [] }) refl refl refl))
            (λ f. a)

  forward-Apart :
      (s : Server P) (i : ℕ) (out : Option Str) → Apart s (forward_answer b cfg api s i out).1
  unfolding forward_answer
  forward-Apart s i (some (byte ∷ bytes)) = queue_send-Apart s i (byte ∷ bytes)
  forward-Apart s i none =
      send_both-Apart api s i
        (send_error_response (codes "ERROR") (codes "08006")
          (codes "simple Query backend forward failed"))
        send_ready_for_query
  forward-Apart s i (some []) =
      send_both-Apart api s i
        (send_error_response (codes "ERROR") (codes "08006")
          (codes "simple Query backend forward failed"))
        send_ready_for_query

module _ {P : Type 0} {b : Backend P} (laws : Watched b) (nd : (i : ℕ) → laws.drops i → ⊥)
    (cfg : Setup) (api : FrontApi) (G : Type 0) (i : ℕ) (w : laws.follows i) where
  abbrev Fit : Server P → Type 0
  Fit s = Sure (λ v. G × Steady laws v) s

  abbrev Free : Server P → Type 0
  Free s = Sure (λ v. G × Ready laws cfg i v) s

  fits : (s : Server P) → Free s → Fit s
  fits s pre h = let (g, p) = pre h in (g, p.steady)

  calm : {s t : Server P} → Apart s t → Free s → Fit t
  calm {s} {t} a pre = fits t (Apart-Sure (λ v. G × Ready laws cfg i v) a pre)

  -- A client that cannot wait is free.
  park-Free :
      (s : Server P)
      → Free s
      → (park_for_backend b cfg s i).0 ≡ false
      → Free (park_for_backend b cfg s i).1
  unfolding park_for_backend
  park-Free s pre =
      let (ok, ring) = waiters_push cfg.fair_schedule s.waiters i in
      let l : Lane = record (s.conns i).lane { be_wait = be_idle } in
      let Q = λ (r : Handled P). r.0 ≡ false → Free r.1 in
      if_cases Q (not ok)
        (λ e f h.
          let (g, p) = pre h in
          let (g', st) =
            waits-Steady laws cfg s i be_idle refl (idle_rests (s.conns i).be_wait p.idle)
              (g, p.steady) in
          (
            g',
            record {
              steady = st;
              idle =
                  at_slot (λ (d : Client). is_idle d.be_wait ≡ true) s.conns i i
                    (record (s.conns i) { lane = l }) (λ x. refl) (λ ne. absurd (ne refl));
            },
          ))
        λ e.
          if_cases Q (ring.count == s.waiters.count) (λ x f. absurd (true_not_false refl f))
            (λ x f. absurd (true_not_false refl f))

  park_bind-Free :
      (s : Server P) (bind : Bind)
      → Free s
      → Fit (park_bind b cfg api s i bind).1
        × ((park_bind b cfg api s i bind).0 ≡ false → Free (park_bind b cfg api s i bind).1)
  unfolding park_bind
  park_bind-Free s bind pre =
      let r1 = feq_push s i (feq_bind bind) in
      let free1 : Free r1.1 =
        Apart-Sure (λ v. G × Ready laws cfg i v) (feq_push-Apart s i (feq_bind bind)) pre in
      let Q = λ (r : Handled P). Fit r.1 × (r.0 ≡ false → Free r.1) in
      if_cases Q (not cfg.fair_schedule) (λ e. (fits s pre, λ f. pre))
        λ e.
          if_cases Q r1.0 (λ q. (park-Steady laws cfg r1.1 i free1, park-Free r1.1 free1))
            (λ q. (fits r1.1 free1, λ f. free1))

  on_bind-Fit : (s : Server P) (bind : Bind) → Free s → Fit (on_bind_event b cfg api s i bind).1
  unfolding on_bind_event
  on_bind-Fit s bind pre =
      let c = s.conns i in
      let c0 : Client = record c { be_resp = []; got_execute = false; got_sync = false } in
      let s0 = put s i c0 in
      let free0 : Free s0 =
        Apart-Sure (λ v. G × Ready laws cfg i v) (put-Apart s i c0 refl refl refl) pre in
      let r1 = begin_and_launch b cfg (λ s i. fail b cfg api s i) false s0 i bind in
      let (opened, free1) =
        begin_and_launch-Started laws cfg (λ s i. fail b cfg api s i) (fail-Spent laws.laws cfg api)
          false s0 i bind w free0 in
      let r2 = park_bind b cfg api r1.1 i bind in
      let Q = λ (r : Handled P). Fit r.1 in
      if_cases Q (not (cfg.has_pool && c.identity_ready && cfg.async_backend))
        (λ e.
          fits (bind_blocking b cfg api s0 i bind).1
            (bind_blocking-Ready laws cfg api i s0 bind free0))
        λ e.
          if_cases Q r1.0 (λ f h. let (g, o) = opened h in (g, Open-Steady laws cfg o))
            λ f.
              if_cases Q r2.0 (λ k. (park_bind-Free r1.1 bind (free1 f)).0)
                λ k. fits (bind_blocking b cfg api r2.1 i bind).1 (
                  bind_blocking-Ready laws cfg api i r2.1 bind
                    ((park_bind-Free r1.1 bind (free1 f)).1 k))

  on_query-Fit : (s : Server P) (sql : Str) → Free s → Fit (on_query_event b cfg api s i sql).1
  unfolding on_query_event
  on_query-Fit s sql pre =
      let c = s.conns i in
      let wire = (on_simple_query api.wire c.frontend cfg.reject_simple_query sql).1 in
      let r = b.exec_query s.pool c.id.group sql in
      if_cases (λ (t : Handled P). Fit t.1)
        (cfg.reject_simple_query || not cfg.has_pool || not c.identity_ready)
        (λ e. calm (put-Apart s i (record c { frontend = wire }) refl refl refl) pre)
        λ e.
          Apart-Sure (λ v. G × Steady laws v) (forward-Apart b cfg api (put_pool s r.1) i r.0)
            λ h.
              let (g, p) = pre h in
              let (ok, same) =
                laws.queries s.pool c.id.group sql p.steady.leases.ok (p.steady.leases.short i) in
              (g, repool-Steady laws r.1 ok same p.steady)

  closing-Fit : (s : Server P) → Fit s → Fit (put s i (record (s.conns i) { state = cs_closing }))
  closing-Fit s pre h =
      let (g, st) = pre h in
      (
        g,
        put-Steady laws s i (record (s.conns i) { state = cs_closing }) refl (st.leases.short i)
            refl st,
      )

  -- A message with no pipeline running, or an urgent one.
  act-Fit :
      (s : Server P) (ev : Event)
      → (is_idle (s.conns i).be_wait || is_urgent b cfg api ev) ≡ true
      → Fit s
      → Fit (act b cfg api s i ev).1
  unfolding act
  act-Fit s ev e pre = go ev e
    where
      free : (is_idle (s.conns i).be_wait || false) ≡ true → Free s
      free e h =
          let (g, st) = pre h in
          (g, record { steady = st; idle = left (is_idle (s.conns i).be_wait) e })
        where
          left : (x : Bool) → (x || false) ≡ true → x ≡ true
          left true e = refl
          left false e = cc

      go :
          (x : Event)
          → (is_idle (s.conns i).be_wait || is_urgent b cfg api x) ≡ true
          → Fit (act b cfg api s i x).1
      go ev_startup e =
          Apart-Sure (λ v. G × Steady laws v)
            (send_both-Apart api s i send_auth_ok send_ready_for_query) pre
      go ev_terminate e = closing-Fit s pre
      go (ev_parse p) e = calm (drain_parse-Apart b cfg api s i p) (free e)
      go (ev_bind bind) e = on_bind-Fit s bind (free e)
      go ev_execute e =
          if_cases (λ (t : Handled P). Fit t.1) (not cfg.has_pool || no_bytes (s.conns i).be_resp)
            (λ f.
              calm (send_front-Apart api s i (send_command_complete (codes "SELECT 0"))) (free e))
            (λ f. pre)
      go ev_sync e = calm (on_sync-Apart b cfg api s i) (free e)
      go (ev_query sql) e = on_query-Fit s sql (free e)
      go ev_other e = pre

  on_event-Fit : (s : Server P) (ev : Event) → Fit s → Fit (on_event b cfg api s i ev).1
  unfolding on_event
  on_event-Fit s ev pre =
      if_cases (λ (t : Handled P). Fit t.1) (is_idle (s.conns i).be_wait || is_urgent b cfg api ev)
        (λ e. act-Fit s ev e pre)
        (λ e. Apart-Sure (λ v. G × Steady laws v) (queue_event-Apart b cfg api s i ev) pre)

  pub process_frontend-Fit :
      (s : Server P) (events : List Event) → Fit s → Fit (process_frontend b cfg api s i events).1
  unfolding process_frontend
  process_frontend-Fit s [] pre =
      Apart-Sure (λ v. G × Steady laws v) (drain_frontend_out-Apart api s i) pre
  process_frontend-Fit s (ev ∷ events) pre =
      at (on_event b cfg api s i ev).0 (on_event-Fit s ev pre)
        (process_frontend-Fit (on_event b cfg api s i ev).1 events (on_event-Fit s ev pre))
    where
      at :
          (ok : Bool)
          → Fit (on_event b cfg api s i ev).1
          → Fit (process_frontend b cfg api (on_event b cfg api s i ev).1 i events).1
          → Fit
              (elim ok as (λ x. Handled P) [
                | true ↦ process_frontend b cfg api (on_event b cfg api s i ev).1 i events
                | false ↦ (false, (on_event b cfg api s i ev).1)
              ]).1
      at true now later = later
      at false now later = now
