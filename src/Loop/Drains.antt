-- ===== src/Loop/Drains.antt =====
-- drain_fe_queue: its cases and its loop keep the leases.
use pqproxy.Base.{
  ℕ, ◌≡◌, refl, sym, ap, subst, true, false, true_not_false, if_cases, ◌&&◌, ◌||◌, not, [], ◌∷◌,
  Option, none, some, Str, codes, ◌==◌, if◌then◌else◌,
}
use pqproxy.Pique.Wire.{Bind, send_bind_complete}
use pqproxy.Rewrite.{on_simple_query}
use pqproxy.FeQueue.{
  Item, feq_none, feq_parse, feq_bind, feq_query, feq_execute, feq_sync, feq_terminate, push_front,
}
use pqproxy.WaitRing.{waiters_push}
use pqproxy.Loop.{
  Backend, BeWait, be_idle, be_waiting_pool, cs_closing, Lane, Client, Server, Setup, FrontApi,
  Handled, put, put_lane, put_pool,
}
use pqproxy.Loop.Output.{queue_send, send_error}
use pqproxy.Loop.Schedule.{
  is_idle, is_working, park_for_backend, start_async_bind_from_queue, keep_answer, bind_blocking,
  put_back, drain_bind, drain_parse, drain_execute, drain_sync, drain_query, drain_item,
}
use pqproxy.Loop.Leases.{
  Watched, View, view, Sure, Apart, Phased, rests, sends, reads, drops, slot_self, put-relane,
  put-Apart, Apart-Sure, Steady, Open, at_slot, Steady-Loose, Loose-Steady,
}
use pqproxy.Loop.Renews.{put-Steady}
use pqproxy.Loop.Moves.{relane-Loose, repool-Steady}
use pqproxy.Loop.Calm.{
  queue_send-Apart, send_front-Apart, send_error-Apart, keep_answer-Apart, drain_parse-Apart,
  drain_execute-Apart, drain_sync-Apart,
}
use pqproxy.Loop.Starts.{Spent, Ready, idle_rests}
use pqproxy.Loop.Begins.{Ready-Open, start_from_queue-Started}

module _ {P : Type 0} {b : Backend P} (laws : Watched b) (cfg : Setup) where
  -- An idle lane is free for a start.
  pub Open-Ready :
      {i : ℕ} {v : View P} → Open laws i v → is_idle (v.lanes i).be_wait ≡ true → Ready laws cfg i v
  Open-Ready {i} {v} o idle = record {
    steady = Loose-Steady laws o.loose (free (v.lanes i) o.own idle);
    idle = idle;
  }
    where
      free :
          (l : Lane)
          → Phased (record l { draining_queue = false })
          → is_idle l.be_wait ≡ true
          → Phased l
      free l (rests e f g h) idle = rests e f g h
      free l (sends e f g h) idle = absurd (true_not_false idle (ap is_idle h))
      free l (reads e f g h) idle = absurd (true_not_false idle (ap is_idle h))
      free l (drops e w) idle = drops e w

  pub Open-Steady : {i : ℕ} {v : View P} → Open laws i v → Steady laws v
  Open-Steady {i} {v} o = Loose-Steady laws o.loose (drained (v.lanes i) o.own)
    where
      drained : (l : Lane) → Phased (record l { draining_queue = false }) → Phased l
      drained l (rests e f g h) = rests e f g h
      drained l (sends e f g h) = sends e f g h
      drained l (reads e f g h) = reads e f g h
      drained l (drops e w) = drops e w

  pub Steady-Open : {v : View P} (i : ℕ) → Steady laws v → Open laws i v
  Steady-Open {v} i s = record {
    loose = Steady-Loose laws i s;
    own = undrained (v.lanes i) (s.each i);
  }
    where
      undrained : (l : Lane) → Phased l → Phased (record l { draining_queue = false })
      undrained l (rests e f g h) = rests e f g h
      undrained l (sends e f g h) = sends e f g h
      undrained l (reads e f g h) = reads e f g h
      undrained l (drops e w) = drops e w

  -- A lane without work may wait, or not.
  pub waits-Steady :
      {G : Type 0} (s : Server P) (i : ℕ) (w : BeWait)
      → is_working w ≡ false
      → is_working (s.conns i).be_wait ≡ false
      → G × Steady laws (view s)
      → G × Steady laws (view (put_lane s i (record (s.conns i).lane { be_wait = w })))
  waits-Steady {G} s i w still now (g, st) =
      let l : Lane = record (s.conns i).lane { be_wait = w } in
      (
        g,
        subst (Steady laws) (sym (put-relane s i (record (s.conns i) { lane = l }) refl refl)) (
            Loose-Steady laws
              (relane-Loose laws l refl (λ d. absurd (true_not_false (st.leases.dropped i d).1 now))
                (Steady-Loose laws i st))
              (subst Phased (sym (slot_self (view s).lanes i l))
                (moved (s.conns i).lane (st.each i) now))),
      )
    where
      moved :
          (l : Lane) → Phased l → is_working l.be_wait ≡ false → Phased (record l { be_wait = w })
      moved l (rests e f g h) now = rests e f g still
      moved l (sends e f g h) now = absurd (true_not_false (ap is_working h) now)
      moved l (reads e f g h) now = absurd (true_not_false (ap is_working h) now)
      moved l (drops e w) now = absurd (true_not_false w now)

  pub park-Steady :
      {G : Type 0} (s : Server P) (i : ℕ)
      → Sure (λ v. G × Ready laws cfg i v) s
      → Sure (λ v. G × Steady laws v) (park_for_backend b cfg s i).1
  unfolding park_for_backend
  park-Steady {G} s i pre =
      let (ok, w) = waiters_push cfg.fair_schedule s.waiters i in
      let still : Sure (λ v. G × Steady laws v × (is_working (v.lanes i).be_wait ≡ false)) s =
        λ h. let (g, p) = pre h in (g, p.steady, idle_rests (s.conns i).be_wait p.idle) in
      if_cases (λ (r : Handled P). Sure (λ v. G × Steady laws v) r.1) (not ok)
        (λ e h. let (g, st, now) = still h in waits-Steady s i be_idle refl now (g, st))
        λ e.
          if_cases (λ (r : Handled P). Sure (λ v. G × Steady laws v) r.1)
            (w.count == s.waiters.count)
            (λ f h.
              let (g, st, now) = still h in
              waits-Steady (record s { waiters = w }) i be_waiting_pool refl now (g, st))
            (λ f h.
              let (g, st, now) = still h in
              waits-Steady (record s { waiters = w }) i be_waiting_pool refl now (g, st))

  module _ (api : FrontApi) {G : Type 0} (i : ℕ) where
    pub bind_blocking-Ready :
        (s : Server P) (bind : Bind)
        → Sure (λ v. G × Ready laws cfg i v) s
        → Sure (λ v. G × Ready laws cfg i v) (bind_blocking b cfg api s i bind).1
    unfolding bind_blocking
    bind_blocking-Ready s bind pre =
        let c = s.conns i in
        let r = b.exec_bind s.pool c.cache bind c.id in
        let t =
          if cfg.has_pool && c.identity_ready
          then keep_answer b cfg api (put_pool s r.1) i r.0
          else s in
        let kept : Sure (λ v. G × Ready laws cfg i v) t =
          if_cases (Sure (λ v. G × Ready laws cfg i v)) (cfg.has_pool && c.identity_ready)
            (λ e.
              Apart-Sure (λ v. G × Ready laws cfg i v)
                (keep_answer-Apart b cfg api (put_pool s r.1) i r.0)
                λ h.
                  let (g, p) = pre h in
                  let (ok, same) =
                    laws.binds s.pool c.cache bind c.id p.steady.leases.ok
                      (p.steady.leases.short i) in
                  (g, record { steady = repool-Steady laws r.1 ok same p.steady; idle = p.idle }))
            (λ e. pre) in
        Apart-Sure (λ v. G × Ready laws cfg i v) (send_front-Apart api t i send_bind_complete) kept

    -- The connection is to be closed.
    pub closing-Ready :
        (s : Server P)
        → Sure (λ v. G × Ready laws cfg i v) s
        → Sure (λ v. G × Ready laws cfg i v) (put s i (record (s.conns i) { state = cs_closing }))
    closing-Ready s pre h =
        let (g, p) = pre h in
        let c : Client = record (s.conns i) { state = cs_closing } in
        (
          g,
          record {
            steady = put-Steady laws s i c refl (p.steady.leases.short i) refl p.steady;
            idle =
                at_slot (λ (d : Client). is_idle d.be_wait ≡ true) s.conns i i c (λ e. p.idle)
                  (λ ne. p.idle);
          },
        )

    put_back-Steady :
        (s : Server P) (bind : Bind)
        → Sure (λ v. G × Ready laws cfg i v) s
        → (put_back b cfg api s i bind).0 ≡ true
        → Sure (λ v. G × Steady laws v) (put_back b cfg api s i bind).1
    unfolding put_back
    put_back-Steady s bind pre =
        let c = s.conns i in
        let (ok, q) = push_front c.queue (feq_bind bind) in
        let s' = put s i (record c { queue = q }) in
        if_cases (λ (r : Handled P). r.0 ≡ true → Sure (λ v. G × Steady laws v) r.1)
          (cfg.fair_schedule && ok)
          (λ e t. park-Steady s' i (
            Apart-Sure (λ v. G × Ready laws cfg i v)
              (put-Apart s i (record c { queue = q }) refl refl refl) pre))
          (λ e t. absurd (true_not_false t refl))

    drain_bind-Open :
        (fail : Server P → ℕ → Handled P)
        → Spent fail
        → laws.follows i
        → (s : Server P) (bind : Bind) → Sure (λ v. G × Ready laws cfg i v) s
        → Sure (λ v. G × Open laws i v) (drain_bind b cfg api fail s i bind).1
    unfolding drain_bind
    drain_bind-Open fail spent w s bind pre =
        let Q : Handled P → Type 0 = λ r. Sure (λ v. G × Open laws i v) r.1 in
        let opened : (t : Server P)
            → Sure (λ v. G × Ready laws cfg i v) t
            → Sure (λ v. G × Open laws i v) t =
          λ t r h. let (g, p) = r h in (g, Ready-Open laws cfg p) in
        let (open_, ready) = start_from_queue-Started laws cfg fail spent s i bind w pre in
        let r1 = start_async_bind_from_queue b cfg fail s i bind in
        let r2 = put_back b cfg api r1.1 i bind in
        if_cases Q (not (cfg.has_pool && (s.conns i).identity_ready && cfg.async_backend))
          (λ e. opened (bind_blocking b cfg api s i bind).1 (bind_blocking-Ready s bind pre))
          λ e.
            if_cases Q r1.0 (λ started. open_)
              λ idle.
                if_cases Q r2.0
                  (λ parked h.
                    let (g, p) = put_back-Steady r1.1 bind (ready idle) parked h in
                    (g, Steady-Open i p))
                  (λ full.
                    opened (bind_blocking b cfg api r1.1 i bind).1
                      (bind_blocking-Ready r1.1 bind (ready idle)))

    drain_query-Ready :
        (s : Server P) (sql : Str)
        → Sure (λ v. G × Ready laws cfg i v) s
        → Sure (λ v. G × Ready laws cfg i v) (drain_query b cfg api s i sql)
    unfolding drain_query
    drain_query-Ready s sql pre =
        let c = s.conns i in
        let r = b.exec_query s.pool c.id.group sql in
        let w = (on_simple_query api.wire c.frontend cfg.reject_simple_query sql).1 in
        let Q = λ (v : View P). G × Ready laws cfg i v in
        let asked : Sure Q (put_pool s r.1) = λ h.
          let (g, p) = pre h in
          let (ok, same) =
            laws.queries s.pool c.id.group sql p.steady.leases.ok (p.steady.leases.short i) in
          (g, record { steady = repool-Steady laws r.1 ok same p.steady; idle = p.idle }) in
        if_cases (Sure Q) (cfg.reject_simple_query || not cfg.has_pool || not c.identity_ready)
          (λ e. Apart-Sure Q (put-Apart s i (record c { frontend = w }) refl refl refl) pre)
          (λ e. forwarded r.0 r.1 asked)
      where
        forwarded :
            (out : Option Str) (p : P)
            → Sure (λ v. G × Ready laws cfg i v) (put_pool s p)
            → Sure
                (λ v. G × Ready laws cfg i v)
                (elim out as (λ x. Server P) [
                  | none ↦
                      send_error api
                        (put_pool s p)
                        i
                        (codes "08006")
                        (codes "simple Query backend forward failed")
                  | some [] ↦
                      send_error api
                        (put_pool s p)
                        i
                        (codes "08006")
                        (codes "simple Query backend forward failed")
                  | some (byte ∷ bytes) ↦ (queue_send (put_pool s p) i (byte ∷ bytes)).1
                ])
        forwarded none p q =
            Apart-Sure (λ v. G × Ready laws cfg i v)
              (send_error-Apart api (put_pool s p) i (codes "08006")
                (codes "simple Query backend forward failed"))
              q
        forwarded (some []) p q =
            Apart-Sure (λ v. G × Ready laws cfg i v)
              (send_error-Apart api (put_pool s p) i (codes "08006")
                (codes "simple Query backend forward failed"))
              q
        forwarded (some (byte ∷ bytes)) p q =
            Apart-Sure (λ v. G × Ready laws cfg i v)
              (queue_send-Apart (put_pool s p) i (byte ∷ bytes)) q

    module _ (fail : Server P → ℕ → Handled P) (spent : Spent fail) (w : laws.follows i) where
      pub drain_item-Open :
          (s : Server P) (item : Item)
          → Sure (λ v. G × Ready laws cfg i v) s
          → Sure (λ v. G × Open laws i v) (drain_item b cfg api fail s i item).1
      unfolding drain_item
      drain_item-Open s item pre = at item
        where
          opened :
              (t : Server P)
              → Sure (λ v. G × Ready laws cfg i v) t
              → Sure (λ v. G × Open laws i v) t
          opened t r h = let (g, p) = r h in (g, Ready-Open laws cfg p)

          calm : (t : Server P) → Apart s t → Sure (λ v. G × Open laws i v) t
          calm t a = opened t (Apart-Sure (λ v. G × Ready laws cfg i v) a pre)

          at : (x : Item) → Sure (λ v. G × Open laws i v) (drain_item b cfg api fail s i x).1
          at (feq_parse p) = calm (drain_parse b cfg api s i p) (drain_parse-Apart b cfg api s i p)
          at (feq_bind bind) = drain_bind-Open fail spent w s bind pre
          at feq_execute = calm (drain_execute b cfg api s i) (drain_execute-Apart b cfg api s i)
          at feq_sync = calm (drain_sync b cfg api s i) (drain_sync-Apart b cfg api s i)
          at (feq_query sql) = opened (drain_query b cfg api s i sql) (drain_query-Ready s sql pre)
          at feq_terminate =
              opened (put s i (record (s.conns i) { state = cs_closing })) (closing-Ready s pre)
          at feq_none = opened s pre
