-- ===== src/Loop/Begins.antt =====
-- A start of a pipeline with async_begin before the launch.
use pqproxy.Base.{
  ℕ, ◌<◌, ◌≡◌, ◌≢◌, refl, Bool, true, false, true_not_false, Option, none, some, arith,
}
use pqproxy.Pique.Wire.{Bind}
use pqproxy.Pique.{Prepared}
use pqproxy.StmtCache.{get}
use pqproxy.Loop.{Backend, Begun, no_lease, one_lease, Server, Setup, Handled, put_pool}
use pqproxy.Loop.Schedule.{launch, begin_and_launch, start_async_bind_from_queue}
use pqproxy.Loop.Leases.{Watched, View, view, repool, Sure, rests, Open, Steady-Loose}
use pqproxy.Loop.Moves.{repool-Steady}
use pqproxy.Loop.Lends.{lend-Loose}
use pqproxy.Loop.Starts.{Spent, idle_rests, Ready, Started, Ready-lane, launch-Started}

module _ {P : Type 0} {b : Backend P} (laws : Watched b) (cfg : Setup) where
  pub Ready-Open : {i : ℕ} {v : View P} → Ready laws cfg i v → Open laws i v
  Ready-Open {i} {v} r =
      let (e, f, g) = Ready-lane laws cfg r in
      record {
        loose = Steady-Loose laws i r.steady;
        own = rests e f g (idle_rests (v.lanes i).be_wait r.idle);
      }

  without_lease :
      {p q : P} → Begun b laws.Ok p (none, q) → laws.Ok q × ((j : ℕ) → b.leased q j ≡ b.leased p j)
  without_lease (no_lease ok same) = (ok, same)

  with_lease :
      {p q : P} {k : ℕ}
      → Begun b laws.Ok p (some k, q)
      → laws.Ok q
        × (b.leased p k ≡ false)
        × (b.leased q k ≡ true)
        × ((j : ℕ) → j ≢ k → b.leased q j ≡ b.leased p j)
  with_lease (one_lease ok idle taken same) = (ok, idle, taken, same)

  -- async_begin and the launch, for a lane that is free; without a lease nothing has started.
  pub begin_and_launch-Started :
      {G : Type 0} (fail : Server P → ℕ → Handled P)
      → Spent fail
      → (from_queue : Bool) (s : Server P) (i : ℕ) (bind : Bind) → laws.follows i
      → Sure (λ v. G × Ready laws cfg i v) s
      → let r = begin_and_launch b cfg fail from_queue s i bind in
        Sure (λ v. G × Open laws i v) r.1 × (r.0 ≡ false → Sure (λ v. G × Ready laws cfg i v) r.1)
  unfolding begin_and_launch
  begin_and_launch-Started {G} fail spent from_queue s i bind w pre =
      let r = b.begin s.pool (s.conns i).cache bind (s.conns i).id in
      at r.0 r.1 (λ h.
        let (g, p) = pre h in
        laws.begins s.pool (s.conns i).cache bind (s.conns i).id p.steady.leases.ok
          (p.steady.leases.short i))
    where
      at :
          (conn : Option ℕ) (q : P)
          → (0 < s.sqes → Begun b laws.Ok s.pool (conn, q))
          → let r = elim conn as (λ x. Handled P) [
            | none ↦ (false, put_pool s q)
            | some k ↦ launch b cfg fail from_queue (put_pool s q) i k
          ] in
            Sure (λ v. G × Open laws i v) r.1
            × (r.0 ≡ false → Sure (λ v. G × Ready laws cfg i v) r.1)
      at none q begun =
          let ready : 0 < s.sqes → G × Ready laws cfg i (repool (view s) q) = λ h.
            let (g, p) = pre h in
            let (ok, same) = without_lease (begun h) in
            (g, record { steady = repool-Steady laws q ok same p.steady; idle = p.idle }) in
          (λ h. let (g, p) = ready h in (g, Ready-Open p), λ f. ready)
      at (some k) q begun =
          let o : Started laws cfg G i (launch b cfg fail from_queue (put_pool s q) i k) =
            launch-Started laws cfg fail spent from_queue s i k q λ h.
              let (g, p) = pre h in
              let (empty, ns, nr) = Ready-lane laws cfg p in
              let (ok, idle, taken, same) = with_lease (begun h) in
              (
                g,
                lend-Loose laws q (record (s.conns i).lane { be = some k })
                    (Steady-Loose laws i p.steady) empty ok idle taken same refl
                    (λ d.
                      true_not_false (p.steady.leases.dropped i d).1
                        (idle_rests (s.conns i).be_wait p.idle))
                    (p.steady.leases.used i w),
                ns,
                nr,
              ) in
          (o.opened, λ f h. absurd (ground (arith, h, o.full f)))

  pub start_from_queue-Started :
      {G : Type 0} (fail : Server P → ℕ → Handled P)
      → Spent fail
      → (s : Server P) (i : ℕ) (bind : Bind) → laws.follows i
      → Sure (λ v. G × Ready laws cfg i v) s
      → let r = start_async_bind_from_queue b cfg fail s i bind in
        Sure (λ v. G × Open laws i v) r.1 × (r.0 ≡ false → Sure (λ v. G × Ready laws cfg i v) r.1)
  unfolding start_async_bind_from_queue
  start_from_queue-Started {G} fail spent s i bind w pre = at (get (s.conns i).cache bind.statement)
    where
      at :
          (found : Option Prepared)
          → let r = elim found as (λ x. Handled P) [
            | none ↦ (false, s)
            | some prep ↦ begin_and_launch b cfg fail true s i bind
          ] in
            Sure (λ v. G × Open laws i v) r.1
            × (r.0 ≡ false → Sure (λ v. G × Ready laws cfg i v) r.1)
      at none = (λ h. (let (g, p) = pre h in (g, Ready-Open p)), λ f. pre)
      at (some prep) = begin_and_launch-Started fail spent true s i bind w pre
