-- ===== src/Loop/Turns.antt =====
-- Every completion that the loop of pqproxy_run takes keeps the leases, if the ring answers what was
-- submitted.
use pqproxy.Base.{
  ℕ, ◌≡◌, refl, ap, Bool, true, false, if_cases, ◌&&◌, ◌||◌, not, Option, none, some, ltb, leb,
  ◌==◌, if◌then◌else◌, length,
}
use pqproxy.Outbox.{on_sent}
use pqproxy.WaitRing.{max_conns}
use pqproxy.Metrics.{set_gauges}
use pqproxy.Loop.{
  Backend, BackendLaws, cs_closing, Client, Server, Setup, FrontApi, Handled, note, put, put_pool,
}
use pqproxy.Loop.Output.{entries_left}
use pqproxy.Loop.Schedule.{is_free, is_closing, is_some}
use pqproxy.Loop.Pipelines.{on_be_send_cqe, on_be_recv_cqe}
use pqproxy.Loop.Frontend.{process_frontend}
use pqproxy.Loop.Serving.{active_from, or_close, submit_recv}
use pqproxy.Loop.Dispatch.{
  Received, recv_error, recv_end, recv_events, Completion, ticks, accepted, received, sent_plain,
  polled, be_sent, be_received, on_tls_poll, on_received_plain, on_sent_plain, on_completion,
}
use pqproxy.Loop.Leases.{Sure, at_slot, Apart, put-Apart, Apart-Sure, Steady}
use pqproxy.Loop.Renews.{put-Steady}
use pqproxy.Loop.Moves.{repool-Steady}
use pqproxy.Loop.Failures.{of_Steady}
use pqproxy.Loop.Ends.{on_be_send_cqe-Ended, on_be_recv_cqe-Ended}
use pqproxy.Loop.Events.{process_frontend-Fit}
use pqproxy.Loop.Closing.{plain, using, close_conn-Steady, or_close-Steady, close_any-Steady}
use pqproxy.Loop.Accepts.{entries_left-le, submit_recv-Apart, now_used, accept_one-Steady}
use pqproxy.Loop.Serves.{on_tls_poll-Fit}

-- A completion of a backend answers a submission that the lane waits for.
abbrev pub timely : {P : Type 0} → Server P → Completion → Bool
timely s (be_sent i r) = not (is_some (s.conns i).be) || (s.conns i).be_send_pending
timely s (be_received i bytes) = not (is_some (s.conns i).be) || (s.conns i).be_recv_pending
timely s _ = true

module _ {P : Type 0} {b : Backend P} (base : BackendLaws b) (cfg : Setup) (api : FrontApi)
    (pooled : cfg.has_pool ≡ true) (G : Type 0) where
  abbrev Fit : Server P → Type 0
  Fit s = Sure (λ v. G × Steady (plain base) v) s

  -- A handler of a client in use that keeps the leases, and the closing after it.
  handled :
      (s : Server P) (i : ℕ) (r : Handled P)
      → is_free (s.conns i).state ≡ false
      → Fit s
      → (Sure (λ v. G × Steady (using base i) v) s → Sure (λ v. G × Steady (using base i) v) r.1)
      → Fit (or_close b cfg api i r)
  handled s i r live pre step = or_close-Steady base cfg api pooled i r (
      of_Steady (using base i) (λ j d. d) cfg api i r
        (step (now_used base cfg api pooled s i live pre)))

  received-Fit :
      (s : Server P) (i : ℕ) (r : Received)
      → is_free (s.conns i).state ≡ false
      → Fit s
      → Fit (on_received_plain b cfg api s i r)
  unfolding on_received_plain
  received-Fit s i recv_error live pre = close_any-Steady base cfg api pooled s i pre
  received-Fit s i recv_end live pre =
      let c : Client = record (s.conns i) { state = cs_closing } in
      close_any-Steady base cfg api pooled (put s i c) i λ h.
        let (g, st) = pre h in (g, put-Steady (plain base) s i c refl (st.leases.short i) refl st)
  received-Fit s i (recv_events events) live pre =
      let r = process_frontend b cfg api s i events in
      let fit =
        process_frontend-Fit (using base i) (λ j d. d) cfg api G i refl s events
          (now_used base cfg api pooled s i live pre) in
      let e = of_Steady (using base i) (λ j d. d) cfg api i (false, r.1) fit in
      if_cases Fit (not r.0 || is_closing (r.1.conns i).state)
        (λ x. close_conn-Steady base cfg api pooled r.1 i e.closable)
        (λ x. or_close-Steady base cfg api pooled i (submit_recv b cfg api r.1 i) (
          of_Steady (using base i) (λ j d. d) cfg api i (submit_recv b cfg api r.1 i)
            (Apart-Sure (λ v. G × Steady (using base i) v) (submit_recv-Apart b cfg api r.1 i)
              fit)))

  sent-Fit : (s : Server P) (i : ℕ) (r : Option ℕ) → Fit s → Fit (on_sent_plain b cfg api s i r)
  unfolding on_sent_plain
  sent-Fit s i none pre = close_any-Steady base cfg api pooled s i pre
  sent-Fit s i (some n) pre =
      let c = s.conns i in
      let o = on_sent (ltb 0 s.sqes) n c.out in
      let o0 = record c.out { send_pending = false } in
      let s' = record (put s i (record c { out = o })) { sqes = entries_left o0 o s.sqes } in
      let a = put-Apart s i (record c { out = o }) refl refl refl in
      let apart : Apart s s' = record {
        fewer = entries_left-le b cfg api o0 o s.sqes;
        same = a.same;
      } in
      let moved : Fit s' = Apart-Sure (λ v. G × Steady (plain base) v) apart pre in
      if_cases Fit (is_closing c.state && length o.send_buf == 0)
        (λ e. close_any-Steady base cfg api pooled s' i moved) (λ e. moved)

  in_use : (x y : Bool) → (x || y) ≡ false → y ≡ false
  in_use true y e = cc
  in_use false y e = e

  pending : (has flag : Bool) → has ≡ true → (not has || flag) ≡ true → flag ≡ true
  pending true flag h e = e
  pending false flag h e = cc

  pub on_completion-Steady :
      (s : Server P) (e : Completion)
      → timely s e ≡ true
      → Fit s
      → Fit (on_completion b cfg api s e)
  unfolding on_completion
  on_completion-Steady s (ticks due gauges) t pre = told gauges
    where
      s' : Server P
      s' = if due && cfg.has_pool then put_pool s (b.maintain s.pool) else s

      kept : Fit s'
      kept =
          if_cases Fit (due && cfg.has_pool)
            (λ e h.
              let (g, st) = pre h in
              let (ok, same) = base.maintains s.pool st.leases.ok in
              (g, repool-Steady (plain base) (b.maintain s.pool) ok same st))
            (λ e. pre)

      told :
          (o : Option ℕ)
          → Fit (elim o as (λ x. Server P) [
            | none ↦ s'
            | some live ↦ note (set_gauges live (active_from s.conns 0 max_conns)) s'
          ])
      told none = kept
      told (some live) = kept
  on_completion-Steady s (accepted fd created tls) t pre =
      accept_one-Steady base cfg api pooled s fd created tls pre
  on_completion-Steady s (received i r) t pre =
      let c : Client = record (s.conns i) { recv_pending = false } in
      if_cases Fit (leb max_conns i || is_free (s.conns i).state) (λ e. pre)
        λ e.
          let live = in_use (leb max_conns i) (is_free (s.conns i).state) e in
          received-Fit (put s i c) i r
            (at_slot (λ (d : Client). is_free d.state ≡ false) s.conns i i c (λ x. live)
              (λ ne. live))
            (Apart-Sure (λ v. G × Steady (plain base) v) (put-Apart s i c refl refl refl) pre)
  on_completion-Steady s (sent_plain i r) t pre =
      if_cases Fit (leb max_conns i || is_free (s.conns i).state) (λ e. pre)
        (λ e. sent-Fit s i r pre)
  on_completion-Steady s (polled i r) t pre =
      let c : Client = record (s.conns i) {
        out = record (s.conns i).out { poll_pending = false };
      } in
      if_cases Fit (leb max_conns i || is_free (s.conns i).state) (λ e. pre)
        λ e.
          let live = in_use (leb max_conns i) (is_free (s.conns i).state) e in
          handled (put s i c) i (on_tls_poll b cfg api (put s i c) i r)
            (at_slot (λ (d : Client). is_free d.state ≡ false) s.conns i i c (λ x. live)
              (λ ne. live))
            (Apart-Sure (λ v. G × Steady (plain base) v) (put-Apart s i c refl refl refl) pre)
            (λ f. on_tls_poll-Fit (using base i) (λ j d. d) cfg api G i refl (put s i c) r f)
  on_completion-Steady s (be_sent i r) t pre = at (s.conns i).be refl
    where
      at :
          (o : Option ℕ)
          → (s.conns i).be ≡ o
          → Fit (elim o as (λ x. Server P) [
            | none ↦ s
            | some k ↦
                if leb max_conns i || is_free (s.conns i).state
                then s
                else or_close b cfg api i (on_be_send_cqe b cfg api s i k r)
          ])
      at none e = pre
      at (some k) e =
          if_cases Fit (leb max_conns i || is_free (s.conns i).state) (λ x. pre)
            λ x.
              let live = in_use (leb max_conns i) (is_free (s.conns i).state) x in
              or_close-Steady base cfg api pooled i (on_be_send_cqe b cfg api s i k r) (
                on_be_send_cqe-Ended (using base i) (λ j d. d) cfg api s i k e refl
                  (now_used base cfg api pooled s i live pre)
                  (pending (is_some (s.conns i).be) (s.conns i).be_send_pending (ap is_some e) t) r)
  on_completion-Steady s (be_received i bytes) t pre = at (s.conns i).be refl
    where
      at :
          (o : Option ℕ)
          → (s.conns i).be ≡ o
          → Fit (elim o as (λ x. Server P) [
            | none ↦ s
            | some k ↦
                if leb max_conns i || is_free (s.conns i).state
                then s
                else or_close b cfg api i (on_be_recv_cqe b cfg api s i k bytes)
          ])
      at none e = pre
      at (some k) e =
          if_cases Fit (leb max_conns i || is_free (s.conns i).state) (λ x. pre)
            λ x.
              let live = in_use (leb max_conns i) (is_free (s.conns i).state) x in
              or_close-Steady base cfg api pooled i (on_be_recv_cqe b cfg api s i k bytes) (
                on_be_recv_cqe-Ended (using base i) (λ j d. d) cfg api s i k e refl
                  (now_used base cfg api pooled s i live pre)
                  (pending (is_some (s.conns i).be) (s.conns i).be_recv_pending (ap is_some e) t)
                  bytes)
