-- ===== src/Loop/Grants.antt =====
-- fair_schedule_waiters keeps the leases.
use pqproxy.Base.{
  ℕ, zero, suc, ◌≡◌, ◌⊎◌, refl, ap, ◌∙◌, inl, inr, Bool, true, false, if_cases, ◌&&◌, ◌||◌, not,
  Option, none, some, ltb, leb, ◌==◌, if◌then◌else◌,
}
use pqproxy.WaitRing.{max_conns, waiters_take}
use pqproxy.Metrics.{inc_fair_schedules, set_pool_waiters}
use pqproxy.Loop.{
  Backend, BeWait, be_idle, be_sending, be_reading, be_waiting_pool, Server, Setup, FrontApi,
  Handled, note, put_lane,
}
use pqproxy.Loop.Schedule.{is_idle, is_waiting, is_working, is_free, park_for_backend}
use pqproxy.Loop.Rounds.{drain_fe_queue, grant, fair_from, fair_schedule_waiters}
use pqproxy.Loop.Leases.{Watched, View, Sure, Steady}
use pqproxy.Loop.Renews.{rewatch}
use pqproxy.Loop.Starts.{Spent}
use pqproxy.Loop.Drains.{waits-Steady, park-Steady}
use pqproxy.Loop.Drained.{drain_fe_queue-Steady}

and_left : (x y : Bool) → (x && y) ≡ true → x ≡ true
and_left true y h = refl
and_left false y h = cc

or_off : (x y : Bool) → (x || y) ≡ false → (x ≡ false) × (y ≡ false)
or_off true y h = cc
or_off false y h = (refl, h)

-- The laws, with one slot more that stays in use.
abbrev also : {P : Type 0} {b : Backend P} → Watched b → ℕ → Watched b
also laws i = record laws { follows = λ k. laws.follows k ⊎ (k ≡ i) }

module _ {P : Type 0} {b : Backend P} (laws : Watched b) (cfg : Setup) (api : FrontApi) where
  module _ {G : Type 0} (fail : Server P → ℕ → Handled P) (spent : Spent fail) where
    -- A waiter that is in use and whose lane does no work gets its turn.
    turn-Steady :
        (s : Server P) (i : ℕ)
        → is_free (s.conns i).state ≡ false
        → is_working (s.conns i).be_wait ≡ false
        → Sure (λ v. G × Steady laws v) s
        → Sure
            (λ v. G × Steady (also laws i) v)
            (drain_fe_queue b cfg api fail
              (put_lane s i (record (s.conns i).lane { be_wait = be_idle }))
              i).1
    turn-Steady s i live now pre =
        let idle = put_lane s i (record (s.conns i).lane { be_wait = be_idle }) in
        drain_fe_queue-Steady (also laws i) cfg api fail spent idle i (inr refl) λ h.
          let (g, st) = pre h in
          waits-Steady (also laws i) cfg s i be_idle refl now (
            g,
            rewatch refl st
                (λ j w. elim w [
                  | inl f ↦ st.leases.used j f
                  | inr e ↦ ap (λ k. is_free (s.conns k).state) e ∙ live
                ])
                (λ j d. st.leases.dropped j d),
          )

    unwatch :
        (s : Server P) (i : ℕ)
        → Sure (λ v. G × Steady (also laws i) v) s
        → Sure (λ v. G × Steady laws v) s
    unwatch s i pre h =
        let (g, st) = pre h in
        (g, rewatch refl st (λ j w. st.leases.used j (inl w)) (λ j d. st.leases.dropped j d))

    grant-Steady :
        (s : Server P) (i : ℕ)
        → Sure (λ v. G × Steady laws v) s
        → Sure (λ v. G × Steady laws v) (grant b cfg api fail s i)
    unfolding grant
    grant-Steady s i pre =
        let c = s.conns i in
        let idle = put_lane s i (record c.lane { be_wait = be_idle }) in
        let r = drain_fe_queue b cfg api fail idle i in
        let c' = r.1.conns i in
        let Q = λ (v : View P). G × Steady laws v in
        let last =
          if is_idle c'.be_wait && ltb 0 c'.queue.count
          then (park_for_backend b cfg r.1 i).1
          else r.1 in
        let third = if is_working c'.be_wait then note inc_fair_schedules r.1 else last in
        let second = if not r.0 then r.1 else third in
        if_cases (Sure Q) (is_free c.state || not (is_waiting c.be_wait))
          {y = if c.queue.count == 0 then idle else second} (λ e. pre)
          λ e.
            let (live, waiting) = or_off (is_free c.state) (not (is_waiting c.be_wait)) e in
            let now = waiting_rests c.be_wait waiting in
            let drained : Sure Q r.1 = unwatch r.1 i (turn-Steady s i live now pre) in
            if_cases (Sure Q) (c.queue.count == 0) {y = second}
              (λ z h. waits-Steady laws cfg s i be_idle refl now (pre h))
              λ z.
                if_cases (Sure Q) (not r.0) {y = third} (λ f. drained)
                  λ f.
                    if_cases (Sure Q) (is_working c'.be_wait) {y = last} (λ w. drained)
                      λ w.
                        if_cases (Sure Q) (is_idle c'.be_wait && ltb 0 c'.queue.count)
                          (λ x. park-Steady laws cfg r.1 i λ h.
                            let (g, st) = drained h in
                            (
                              g,
                              record {
                                steady = st;
                                idle = and_left (is_idle c'.be_wait) (ltb 0 c'.queue.count) x;
                              },
                            ))
                          (λ x. drained)
      where
        waiting_rests : (w : BeWait) → not (is_waiting w) ≡ false → is_working w ≡ false
        waiting_rests be_waiting_pool h = refl
        waiting_rests be_idle h = refl
        waiting_rests be_sending h = cc
        waiting_rests be_reading h = cc

    fair_from-Steady :
        (n : ℕ) (s : Server P)
        → Sure (λ v. G × Steady laws v) s
        → Sure (λ v. G × Steady laws v) (fair_from b cfg api fail n s)
    unfolding fair_from
    fair_from-Steady zero s pre = pre
    fair_from-Steady (suc n) s pre = at (waiters_take s.waiters).0 (λ t q. fair_from-Steady n t q)
      where
        at :
            (o : Option ℕ)
            → ((t : Server P)
                → Sure (λ v. G × Steady laws v) t
                → Sure (λ v. G × Steady laws v) (fair_from b cfg api fail n t))
            → Sure
                (λ v. G × Steady laws v)
                (elim o as (λ x. Server P) [
                  | none ↦ s
                  | some i ↦
                      let w = (waiters_take s.waiters).1 in
                      let s' = note (set_pool_waiters w.count) (record s { waiters = w }) in
                      fair_from b cfg api fail n
                        (if leb max_conns i then s' else grant b cfg api fail s' i)
                ])
        at none next = pre
        at (some i) next =
            let w = (waiters_take s.waiters).1 in
            let s' = note (set_pool_waiters w.count) (record s { waiters = w }) in
            next (if leb max_conns i then s' else grant b cfg api fail s' i) (
              if_cases (Sure (λ v. G × Steady laws v)) (leb max_conns i) (λ e. pre)
                (λ e. grant-Steady s' i pre))

    pub fair_schedule-Steady :
        (s : Server P)
        → Sure (λ v. G × Steady laws v) s
        → Sure (λ v. G × Steady laws v) (fair_schedule_waiters b cfg api fail s)
    unfolding fair_schedule_waiters
    fair_schedule-Steady s pre =
        if_cases (Sure (λ v. G × Steady laws v))
          (not cfg.fair_schedule || not cfg.has_pool || not cfg.async_backend) (λ e. pre)
          (λ e. fair_from-Steady s.waiters.count s pre)
