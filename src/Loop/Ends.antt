-- ===== src/Loop/Ends.antt =====
-- The end of a pipeline, and the completions of the backends, keep the leases.
use pqproxy.Base.{
  ℕ, ◌<◌, ◌≡◌, refl, sym, ap, subst, ◌∙◌, Bool, true, false, true_not_false, if_cases, ◌&&◌, not,
  [], none, some, Str,
}
use pqproxy.Pique.Wire.{send_bind_complete, send_ready_for_query}
use pqproxy.FeQueue.{clear_all}
use pqproxy.Recv.{Ending, failed, waits, completes}
use pqproxy.Metrics.{inc_be_ok}
use pqproxy.Loop.{
  Backend, Lane, Client, Server, Setup, FrontApi, Handled, note, put, put_lane, put_pool,
}
use pqproxy.Loop.Output.{queue_send}
use pqproxy.Loop.Schedule.{is_working, no_bytes, is_some, submit_be_send, submit_be_recv, finish_be}
use pqproxy.Loop.Rounds.{after_backend_release, fail_at}
use pqproxy.Loop.Pipelines.{
  max_depth, acknowledge, send_answer, deliver, answer, had_error, backend_async_complete, Sent,
  send_error, send_again, sent, on_be_send_cqe, on_received, on_be_recv_cqe,
}
use pqproxy.Loop.Leases.{
  Watched, view, Sure, Apart, Apart-refl, Apart-trans, note-Apart, Phased, rests, sends, reads,
  drops, slot_self, put-relane, put-Apart, Apart-Sure, Loose, Steady, Steady-Loose,
}
use pqproxy.Loop.Moves.{relane-Loose, repool-Loose}
use pqproxy.Loop.Calm.{queue_send-Apart, drain_frontend_out-Apart, send_front-Apart}
use pqproxy.Loop.Starts.{Sendable, Started, submit_be_send-Started, submit_be_recv-Started}
use pqproxy.Loop.Drains.{Open-Steady}
use pqproxy.Loop.Releases.{Failing, after_release-Steady, finish_be-Dropped}
use pqproxy.Loop.Failures.{Ended, of_Steady, of_Failing, fail_at-Spent, fail-Ended}

nothing_there : {k : ℕ} → none ≡ some k → ⊥
nothing_there h = cc

module _ {P : Type 0} {b : Backend P} (laws : Watched b) (nd : (i : ℕ) → laws.drops i → ⊥)
    (cfg : Setup) (api : FrontApi) where
  acknowledge-Apart :
      (s : Server P) (i : ℕ) (error : Bool) → Apart s (acknowledge b cfg api s i error).1
  unfolding acknowledge
  acknowledge-Apart s i true =
      note-Apart (
        put-Apart s i (record (s.conns i) { queue = clear_all; got_execute = false }) refl refl
          refl)
  acknowledge-Apart s i false =
      Apart-trans (note-Apart (Apart-refl s))
        (send_front-Apart api (note inc_be_ok s) i send_bind_complete)

  send_answer-Apart :
      (s : Server P) (i : ℕ) (sync : Bool) → Apart s (send_answer b cfg api s i sync).1
  unfolding send_answer
  send_answer-Apart s i sync =
      let r = queue_send s i (s.conns i).be_resp in
      let a = queue_send-Apart s i (s.conns i).be_resp in
      if_cases (λ (t : Handled P). Apart s t.1) r.0
        (λ e.
          Apart-trans a (
            put-Apart r.1 i (record (r.1.conns i) { be_resp = []; got_sync = sync }) refl refl
              refl))
        (λ e. a)

  deliver-Apart : (s : Server P) (i : ℕ) (error : Bool) → Apart s (deliver b cfg api s i error).1
  unfolding deliver
  deliver-Apart s i error =
      let c = s.conns i in
      let Q = λ (t : Handled P). Apart s t.1 in
      if_cases Q (c.got_sync && not (no_bytes c.be_resp)) (λ e. send_answer-Apart s i c.got_sync)
        λ e.
          if_cases Q (error && not (no_bytes c.be_resp)) (λ f. send_answer-Apart s i false)
            λ f.
              if_cases Q (c.got_sync && no_bytes c.be_resp)
                (λ g. send_front-Apart api s i send_ready_for_query) (λ g. Apart-refl s)

  answer-Apart : (s : Server P) (i : ℕ) → Apart s (answer b cfg api s i).1
  unfolding answer
  answer-Apart s i =
      let error = had_error b cfg api s i in
      let r1 = acknowledge b cfg api s i error in
      let r2 = deliver b cfg api r1.1 i error in
      let a1 = acknowledge-Apart s i error in
      let a2 = Apart-trans a1 (deliver-Apart r1.1 i error) in
      let Q = λ (t : Handled P). Apart s t.1 in
      if_cases Q (not r1.0) (λ e. a1)
        λ e.
          if_cases Q (not r2.0) (λ f. a2)
            (λ f. Apart-trans a2 (drain_frontend_out-Apart api r2.1 i))

  complete-Ended :
      {G : Type 0} (s : Server P) (i : ℕ)
      → laws.follows i
      → Sure (λ v. G × Failing laws cfg api i v) s
      → Ended laws nd cfg api G i (backend_async_complete b cfg api s i)
  unfolding backend_async_complete
  complete-Ended {G} s i w pre =
      let r = answer b cfg api s i in
      let answered = Apart-Sure (λ v. G × Failing laws cfg api i v) (answer-Apart s i) pre in
      let s' = finish_be b cfg r.1 i false in
      if_cases (Ended laws nd cfg api G i) r.0
        (λ e.
          of_Steady laws nd cfg api i
            (after_backend_release b cfg api (fail_at b cfg api max_depth) s' i)
            (after_release-Steady laws cfg api (fail_at b cfg api max_depth)
              (fail_at-Spent laws.laws cfg api max_depth) s' i (nd i) w
              (finish_be-Dropped laws cfg api r.1 i false answered)))
        (λ e. of_Failing laws nd cfg api i r.1 answered)

  -- A submission that worked, or that found no entry.
  of_Started :
      {G : Type 0} (i : ℕ) (r : Handled P) → Started laws cfg G i r → Ended laws nd cfg api G i r
  of_Started i r o =
      of_Steady laws nd cfg api i r λ h. let (g, p) = o.opened h in (g, Open-Steady laws cfg p)

  -- The lane with a flag cleared has nothing submitted.
  cleared :
      {G : Type 0} (s : Server P) (i k : ℕ) (l : Lane)
      → (s.conns i).be ≡ some k
      → l.be ≡ (s.conns i).be
      → (0 < s.sqes
          → G
            × Loose laws i (view s)
            × (l.be_send_pending ≡ false)
            × (l.be_recv_pending ≡ false)
            × (is_working l.be_wait ≡ true))
      → Sure (λ v. G × Sendable laws cfg i v × Failing laws cfg api i v) (put_lane s i l)
  cleared {G} s i k l at e pre h =
      let (g, p, ns, nr, w) = pre h in
      let c : Client = record (s.conns i) { lane = l } in
      let self = slot_self (view s).lanes i l in
      let loose = relane-Loose laws l e (λ d. w) p in
      let off = ap (λ (m : Lane). m.be_send_pending) self ∙ ns in
      let off' = ap (λ (m : Lane). m.be_recv_pending) self ∙ nr in
      subst (λ v. G × Sendable laws cfg i v × Failing laws cfg api i v)
        (sym (put-relane s i c refl refl))
        (
          g,
          record {
            loose = loose;
            some_be = ap (λ (m : Lane). is_some m.be) self ∙ ap is_some (e ∙ at);
            not_sending = off;
            not_reading = off';
          },
          record {
            loose = loose;
            not_sending = off;
            not_reading = off';
            works = ap (λ (m : Lane). is_working m.be_wait) self ∙ w;
          },
        )

  -- A lane with a connection works on it, by one submission.
  at_work : (l : Lane) {k : ℕ} → l.be ≡ some k → Phased l → is_working l.be_wait ≡ true
  at_work l at (rests e f g h) = absurd (nothing_there (sym e ∙ at))
  at_work l at (sends e f g h) = ap is_working h
  at_work l at (reads e f g h) = ap is_working h
  at_work l at (drops e w) = w

  sending_alone :
      (l : Lane) {k : ℕ}
      → l.be ≡ some k
      → Phased l
      → l.be_send_pending ≡ true
      → l.be_recv_pending ≡ false
  sending_alone l at (rests e f g h) t = g
  sending_alone l at (sends e f g h) t = g
  sending_alone l at (reads e f g h) t = absurd (true_not_false t f)
  sending_alone l at (drops e w) t = absurd (nothing_there (sym e ∙ at))

  reading_alone :
      (l : Lane) {k : ℕ}
      → l.be ≡ some k
      → Phased l
      → l.be_recv_pending ≡ true
      → l.be_send_pending ≡ false
  reading_alone l at (rests e f g h) t = f
  reading_alone l at (sends e f g h) t = absurd (true_not_false t g)
  reading_alone l at (reads e f g h) t = f
  reading_alone l at (drops e w) t = absurd (nothing_there (sym e ∙ at))

  sendable :
      {G : Type 0} {i : ℕ} (s : Server P)
      → Sure (λ v. G × Sendable laws cfg i v × Failing laws cfg api i v) s
      → Sure (λ v. G × Sendable laws cfg i v) s
  sendable s pre h = let (g, p, f) = pre h in (g, p)

  failing :
      {G : Type 0} {i : ℕ} (s : Server P)
      → Sure (λ v. G × Sendable laws cfg i v × Failing laws cfg api i v) s
      → Sure (λ v. G × Failing laws cfg api i v) s
  failing s pre h = let (g, p, f) = pre h in (g, f)

  module _ {G : Type 0} (s : Server P) (i k : ℕ) (at : (s.conns i).be ≡ some k) (w : laws.follows i)
      (pre : Sure (λ v. G × Steady laws v) s) where
    -- The completion of a send that the lane waits for.
    pub on_be_send_cqe-Ended :
        (s.conns i).be_send_pending ≡ true
        → (r : Sent) → Ended laws nd cfg api G i (on_be_send_cqe b cfg api s i k r)
    unfolding on_be_send_cqe
    on_be_send_cqe-Ended sending r = go r
      where
        l : Lane
        l = record (s.conns i).lane { be_send_pending = false }

        quiet :
            0 < s.sqes
            → G
              × Loose laws i (view s)
              × (false ≡ false)
              × ((s.conns i).be_recv_pending ≡ false)
              × (is_working (s.conns i).be_wait ≡ true)
        quiet h =
            let (g, st) = pre h in
            (
              g,
              Steady-Loose laws i st,
              refl,
              sending_alone (s.conns i).lane at (st.each i) sending,
              at_work (s.conns i).lane at (st.each i),
            )

        still : Sure (λ v. G × Sendable laws cfg i v × Failing laws cfg api i v) (put_lane s i l)
        still = cleared s i k l at refl quiet

        go : (r : Sent) → Ended laws nd cfg api G i (on_be_send_cqe b cfg api s i k r)
        go send_error =
            fail-Ended laws nd cfg api (put_lane s i l) i w (failing (put_lane s i l) still)
        go send_again =
            of_Started i (submit_be_send b cfg (put_lane s i l) i)
              (submit_be_send-Started laws cfg (put_lane s i l) i (sendable (put_lane s i l) still))
        go (sent n) =
            let q = b.advance s.pool k n in
            let t = put_lane (put_pool s q) i l in
            of_Started i (submit_be_send b cfg t i) (
              submit_be_send-Started laws cfg t i (
                sendable t (
                  cleared (put_pool s q) i k l at refl λ h.
                    let (g, p, ns, nr, busy) = quiet h in
                    let (ok, same) = laws.advances s.pool k n p.leases.ok (p.leases.held i k at) in
                    (g, repool-Loose laws q ok same p, ns, nr, busy))))

    -- What was received on a lane that waits for it.
    pub on_be_recv_cqe-Ended :
        (s.conns i).be_recv_pending ≡ true
        → (bytes : Str) → Ended laws nd cfg api G i (on_be_recv_cqe b cfg api s i k bytes)
    unfolding on_be_recv_cqe on_received
    on_be_recv_cqe-Ended reading bytes =
        let c = s.conns i in
        let l : Lane = record c.lane { be_recv_pending = false } in
        let s' = put_lane s i l in
        let r = b.on_recv s.pool k bytes c.be_resp in
        let c' : Client = record (s'.conns i) { be_resp = r.1 } in
        let quiet : 0 < s.sqes
            → G
              × Loose laws i (view s)
              × (c.be_send_pending ≡ false)
              × (false ≡ false)
              × (is_working c.be_wait ≡ true) =
          λ h.
            let (g, st) = pre h in
            (
              g,
              Steady-Loose laws i st,
              reading_alone c.lane at (st.each i) reading,
              refl,
              at_work c.lane at (st.each i),
            ) in
        let t = put (put_pool s' r.2) i c' in
        let got : Sure (λ v. G × Sendable laws cfg i v × Failing laws cfg api i v) t =
          Apart-Sure (λ v. G × Sendable laws cfg i v × Failing laws cfg api i v)
            (put-Apart (put_pool s' r.2) i c' refl refl refl)
            (cleared (put_pool s r.2) i k l at refl λ h.
              let (g, p, ns, nr, busy) = quiet h in
              let (ok, same) =
                laws.receives s.pool k bytes c.be_resp p.leases.ok (p.leases.held i k at) in
              (g, repool-Loose laws r.2 ok same p, ns, nr, busy)) in
        if_cases (Ended laws nd cfg api G i) (no_bytes bytes)
          (λ e. fail-Ended laws nd cfg api s' i w (failing s' (cleared s i k l at refl quiet)))
          (λ e. on_ending r.0 t got)
      where
        on_ending :
            (e : Ending) (t : Server P)
            → Sure (λ v. G × Sendable laws cfg i v × Failing laws cfg api i v) t
            → Ended laws nd cfg api G i (on_received b cfg api t i e)
        on_ending failed t got = fail-Ended laws nd cfg api t i w (failing t got)
        on_ending waits t got =
            of_Started i (submit_be_recv b cfg t i)
              (submit_be_recv-Started laws cfg t i (sendable t got))
        on_ending completes t got = complete-Ended t i w (failing t got)
