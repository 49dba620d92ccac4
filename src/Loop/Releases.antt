-- ===== src/Loop/Releases.antt =====
-- after_backend_release and the end of a lease keep the leases.
use pqproxy.Base.{
  ℕ, ◌≡◌, refl, sym, ap, subst, ◌∙◌, Bool, true, false, if_cases, ◌&&◌, [], Option, none, some,
  codes, ltb, if◌then◌else◌,
}
use pqproxy.Metrics.{inc_be_fail}
use pqproxy.Loop.{
  Backend, be_idle, Lane, Client, Server, Setup, FrontApi, Handled, note, put, put_lane, put_pool,
}
use pqproxy.Loop.Output.{send_error}
use pqproxy.Loop.Schedule.{is_idle, is_working, finish_be}
use pqproxy.Loop.Rounds.{fair_schedule_waiters, after_backend_release, report_failure}
use pqproxy.Loop.Leases.{
  Watched, View, view, Sure, Phased, rests, slot_self, put-relane, put-Apart, Apart-Sure,
  Apart-trans, Loose, Steady, Loose-Steady,
}
use pqproxy.Loop.Moves.{relane-Loose}
use pqproxy.Loop.Lends.{take_back-Loose}
use pqproxy.Loop.Calm.{drain_frontend_out-Apart, send_error-Apart}
use pqproxy.Loop.Starts.{Spent}
use pqproxy.Loop.Drained.{drain_fe_queue-Steady}
use pqproxy.Loop.Grants.{fair_schedule-Steady}

module _ {P : Type 0} {b : Backend P} (laws : Watched b) (cfg : Setup) (api : FrontApi) where
  -- Nothing is submitted for the lane, and it may have a connection or not.
  pub record Failing (i : ℕ) (v : View P) : Type 0 where
    pub loose : Loose laws i v
    pub not_sending : (v.lanes i).be_send_pending ≡ false
    pub not_reading : (v.lanes i).be_recv_pending ≡ false
    pub works : is_working (v.lanes i).be_wait ≡ true

  pub record Dropped (i : ℕ) (v : View P) : Type 0 where
    pub failing : Failing i v
    pub empty : (v.lanes i).be ≡ none

  module _ {G : Type 0} (fail : Server P → ℕ → Handled P) (spent : Spent fail) where
    pub after_release-Steady :
        (s : Server P) (i : ℕ)
        → (laws.drops i → ⊥)
        → laws.follows i
        → Sure (λ v. G × Dropped i v) s
        → Sure (λ v. G × Steady laws v) (after_backend_release b cfg api fail s i).1
    unfolding after_backend_release
    after_release-Steady s i nd w pre =
        let c = s.conns i in
        let l : Lane = record c.lane { be_wait = be_idle } in
        let c' : Client = record c { lane = l; got_execute = false; got_sync = false } in
        let idle = put s i c' in
        let Q = λ (v : View P). G × Steady laws v in
        let start : Sure Q idle = λ h.
          let (g, d) = pre h in
          (
            g,
            subst (Steady laws) (sym (put-relane s i c' refl refl)) (
                Loose-Steady laws (relane-Loose laws l refl (λ d. absurd (nd d)) d.failing.loose) (
                  subst Phased (sym (slot_self (view s).lanes i l))
                    (rests d.empty d.failing.not_sending d.failing.not_reading refl))),
          ) in
        let s' =
          if cfg.fair_schedule && ltb 0 s.waiters.count
          then fair_schedule_waiters b cfg api fail idle
          else idle in
        let fair : Sure Q s' =
          if_cases (Sure Q) (cfg.fair_schedule && ltb 0 s.waiters.count)
            (λ e. fair_schedule-Steady laws cfg api fail spent idle start) (λ e. start) in
        if_cases (λ (r : Handled P). Sure Q r.1)
          (is_idle (s'.conns i).be_wait && ltb 0 (s'.conns i).queue.count)
          (λ e. drain_fe_queue-Steady laws cfg api fail spent s' i w fair)
          (λ e. Apart-Sure Q (drain_frontend_out-Apart api s' i) fair)

  pub finish_be-Dropped :
      {G : Type 0} (s : Server P) (i : ℕ) (failed : Bool)
      → Sure (λ v. G × Failing i v) s
      → Sure (λ v. G × Dropped i v) (finish_be b cfg s i failed)
  unfolding finish_be
  finish_be-Dropped {G} s i failed pre = at (s.conns i).be refl
    where
      at :
          (o : Option ℕ)
          → (s.conns i).be ≡ o
          → Sure
              (λ v. G × Dropped i v)
              (elim o as (λ x. Server P) [
                | none ↦ s
                | some k ↦
                    put_lane
                      (put_pool s (b.finish s.pool k failed))
                      i
                      (record (s.conns i).lane { be = none })
              ])
      at none e h = let (g, p) = pre h in (g, record { failing = p; empty = e })
      at (some k) e h =
          let (g, p) = pre h in
          let q = b.finish s.pool k failed in
          let l : Lane = record (s.conns i).lane { be = none } in
          let (ok, freed, same) =
            laws.finishes s.pool k failed p.loose.leases.ok (p.loose.leases.held i k e) in
          let self = slot_self (view s).lanes i l in
          (
            g,
            subst (Dropped i)
                (sym (put-relane (put_pool s q) i (record (s.conns i) { lane = l }) refl refl))
                (record {
                  failing = record {
                    loose =
                        take_back-Loose laws q l p.loose e ok freed same refl
                          (λ d. (p.loose.leases.dropped i d).1);
                    not_sending = ap (λ (m : Lane). m.be_send_pending) self ∙ p.not_sending;
                    not_reading = ap (λ (m : Lane). m.be_recv_pending) self ∙ p.not_reading;
                    works = ap (λ (m : Lane). is_working m.be_wait) self ∙ p.works;
                  };
                  empty = ap (λ (m : Lane). m.be) self;
                }),
          )

  pub report_failure-Dropped :
      {G : Type 0} (s : Server P) (i : ℕ)
      → Sure (λ v. G × Failing i v) s
      → Sure (λ v. G × Dropped i v) (report_failure b cfg api s i).1
  unfolding report_failure
  report_failure-Dropped {G} s i pre =
      let s1 = finish_be b cfg (note inc_be_fail s) i true in
      let c = record (s1.conns i) { be_resp = [] } in
      let s2 = put s1 i c in
      let s3 = send_error api s2 i (codes "08006") (codes "backend pipeline failed") in
      Apart-Sure (λ v. G × Dropped i v)
        (Apart-trans (put-Apart s1 i c refl refl refl) (
          Apart-trans (send_error-Apart api s2 i (codes "08006") (codes "backend pipeline failed"))
            (drain_frontend_out-Apart api s3 i)))
        (finish_be-Dropped (note inc_be_fail s) i true pre)
