-- ===== src/Loop/Drained.antt =====
-- The loop of drain_fe_queue keeps the leases.
use pqproxy.Base.{
  ℕ, zero, suc, ◌≡◌, refl, sym, subst, Bool, true, false, if_cases, Option, none, some,
}
use pqproxy.FeQueue.{Item, pop}
use pqproxy.Loop.{Backend, Lane, Server, Setup, FrontApi, Handled, put, put_lane}
use pqproxy.Loop.Schedule.{is_idle, drain_item}
use pqproxy.Loop.Rounds.{drain_from, drain_fe_queue}
use pqproxy.Loop.Leases.{
  Watched, view, Sure, Phased, slot_self, put-relane, put-Apart, Apart-Sure, Steady, Open,
  Loose-Steady,
}
use pqproxy.Loop.Moves.{relane-Loose}
use pqproxy.Loop.Calm.{drain_frontend_out-Apart}
use pqproxy.Loop.Starts.{Spent, Ready}
use pqproxy.Loop.Drains.{Open-Ready, Steady-Open, drain_item-Open}

module _ {P : Type 0} {b : Backend P} (laws : Watched b) (cfg : Setup) (api : FrontApi) where
  module _ {G : Type 0} (fail : Server P → ℕ → Handled P) (spent : Spent fail) where
    drain_from-Open :
        (n : ℕ) (s : Server P) (i : ℕ)
        → laws.follows i
        → Sure (λ v. G × Open laws i v) s
        → Sure (λ v. G × Open laws i v) (drain_from b cfg api fail n s i)
    unfolding drain_from
    drain_from-Open zero s i w pre = pre
    drain_from-Open (suc n) s i w pre =
        at (is_idle (s.conns i).be_wait) refl (pop (s.conns i).queue).0
          (λ t q. drain_from-Open n t i w q)
      where
        popped : Server P
        popped = put s i (record (s.conns i) { queue = (pop (s.conns i).queue).1 })

        done : Item → Handled P
        done item = drain_item b cfg api fail popped i item

        at_result :
            (ok : Bool) (t : Server P)
            → Sure (λ v. G × Open laws i v) t
            → ((t : Server P)
                → Sure (λ v. G × Open laws i v) t
                → Sure (λ v. G × Open laws i v) (drain_from b cfg api fail n t i))
            → Sure
                (λ v. G × Open laws i v)
                (elim ok as (λ x. Server P) [ false ↦ t | true ↦ drain_from b cfg api fail n t i ])
        at_result true t q next = next t q
        at_result false t q next = q

        at :
            (idle : Bool)
            → is_idle (s.conns i).be_wait ≡ idle
            → (o : Option Item)
            → ((t : Server P)
                → Sure (λ v. G × Open laws i v) t
                → Sure (λ v. G × Open laws i v) (drain_from b cfg api fail n t i))
            → Sure
                (λ v. G × Open laws i v)
                (elim idle as (λ x. Server P) [
                  | false ↦ s
                  | true ↦ elim o as (λ x. Server P) [
                    | none ↦ s
                    | some item ↦
                        elim (drain_item b cfg api fail
                            (put s i (record (s.conns i) { queue = (pop (s.conns i).queue).1 }))
                            i
                            item).0
                          as (λ x. Server P) [
                            | false ↦
                                (drain_item b cfg api fail
                                  (put s i
                                    (record (s.conns i) { queue = (pop (s.conns i).queue).1 }))
                                  i
                                  item).1
                            | true ↦
                                drain_from b cfg api fail n
                                  (drain_item b cfg api fail
                                    (put s i
                                      (record (s.conns i) { queue = (pop (s.conns i).queue).1 }))
                                    i
                                    item).1
                                  i
                          ]
                  ]
                ])
        at false e o next = pre
        at true e none next = pre
        at true e (some item) next =
            let ready : Sure (λ v. G × Ready laws cfg i v) s =
              λ h. let (g, o) = pre h in (g, Open-Ready laws cfg o e) in
            let a =
              put-Apart s i (record (s.conns i) { queue = (pop (s.conns i).queue).1 }) refl refl
                refl in
            at_result (done item).0 (done item).1
              (drain_item-Open laws cfg api i fail spent w popped item
                (Apart-Sure (λ v. G × Ready laws cfg i v) a ready))
              next

    pub drain_fe_queue-Steady :
        (s : Server P) (i : ℕ)
        → laws.follows i
        → Sure (λ v. G × Steady laws v) s
        → Sure (λ v. G × Steady laws v) (drain_fe_queue b cfg api fail s i).1
    unfolding drain_fe_queue
    drain_fe_queue-Steady s i w pre =
        let c = s.conns i in
        let l : Lane = record c.lane { draining_queue = true } in
        let s0 = put_lane s i l in
        let opened : Sure (λ v. G × Open laws i v) s0 = λ h.
          let (g, st) = pre h in
          let o = Steady-Open laws cfg i st in
          (
            g,
            subst (Open laws i) (sym (put-relane s i (record c { lane = l }) refl refl)) (record {
              loose = relane-Loose laws l refl (λ d. (o.loose.leases.dropped i d).1) o.loose;
              own =
                  subst (λ (m : Lane). Phased (record m { draining_queue = false }))
                    (sym (slot_self (view s).lanes i l)) o.own;
            }),
          ) in
        let s' = drain_from b cfg api fail c.queue.count s0 i in
        let c' = s'.conns i in
        let l' : Lane = record c'.lane { draining_queue = false } in
        let s'' = put_lane s' i l' in
        let drained = drain_from-Open c.queue.count s0 i w opened in
        let steady : Sure (λ v. G × Steady laws v) s'' = λ h.
          let (g, o) = drained h in
          (
            g,
            subst (Steady laws) (sym (put-relane s' i (record c' { lane = l' }) refl refl)) (
                Loose-Steady laws
                  (relane-Loose laws l' refl (λ d. (o.loose.leases.dropped i d).1) o.loose)
                  (subst Phased (sym (slot_self (view s').lanes i l')) o.own)),
          ) in
        if_cases (λ (r : Handled P). Sure (λ v. G × Steady laws v) r.1) c.draining_queue (λ e. pre)
          (λ e. Apart-Sure (λ v. G × Steady laws v) (drain_frontend_out-Apart api s'' i) steady)
