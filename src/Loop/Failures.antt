-- ===== src/Loop/Failures.antt =====
-- backend_async_fail keeps the leases, at every depth, and leaves a client that may be closed.
use pqproxy.Base.{
  ℕ, zero, suc, ◌<◌, ◌≡◌, refl, true, false, true_not_false, if_cases, ◌⊎◌, inl, inr, arith,
}
use pqproxy.Loop.{Backend, BackendLaws, Server, Setup, FrontApi, Handled}
use pqproxy.Loop.Schedule.{is_working}
use pqproxy.Loop.Rounds.{after_backend_release, report_failure, backend_async_fail, fail_at}
use pqproxy.Loop.Pipelines.{max_depth, fail}
use pqproxy.Loop.Leases.{Watched, View, Sure, Phased, Loose, Steady, Steady-Loose}
use pqproxy.Loop.Starts.{Spent}
use pqproxy.Loop.Releases.{Failing, after_release-Steady, report_failure-Dropped}

none_left : (n : ℕ) → (0 < n → ⊥) → n ≡ 0
none_left zero h = refl
none_left (suc n) h = absurd (h (omega arith))

module _ {P : Type 0} {b : Backend P} (laws : Watched b) (nd : (i : ℕ) → laws.drops i → ⊥)
    (cfg : Setup) (api : FrontApi) where
  -- A client that may be closed: its lane is in order, or it works on a connection.
  pub record Closable (i : ℕ) (v : View P) : Type 0 where
    pub loose : Loose laws i v
    pub lane : Phased (v.lanes i) ⊎ (is_working (v.lanes i).be_wait ≡ true)

  -- A handler's result: in order if it is 0, and else with one connection that is to be closed.
  pub record Ended (G : Type 0) (i : ℕ) (r : Handled P) : Type 0 where
    pub closable : Sure (λ v. G × Closable i v) r.1
    pub steady : r.0 ≡ true → Sure (λ v. G × Steady laws v) r.1

  pub of_Steady :
      {G : Type 0} (i : ℕ) (r : Handled P) → Sure (λ v. G × Steady laws v) r.1 → Ended G i r
  of_Steady i r s = record {
    closable = λ h.
        (let (g, st) = s h in
          (g, record { loose = Steady-Loose laws i st; lane = inl (st.each i) }));
    steady = λ e. s;
  }

  pub of_Failing :
      {G : Type 0} (i : ℕ) (s : Server P)
      → Sure (λ v. G × Failing laws cfg api i v) s
      → Ended G i (false, s)
  of_Failing i s l = record {
    closable = λ h. (let (g, p) = l h in (g, record { loose = p.loose; lane = inr p.works }));
    steady = λ e. absurd (true_not_false e refl);
  }

  pub backend_async_fail-Ended :
      {G : Type 0} (f : Server P → ℕ → Handled P)
      → Spent f
      → (s : Server P) (i : ℕ) → laws.follows i
      → Sure (λ v. G × Failing laws cfg api i v) s
      → Ended G i (backend_async_fail b cfg api f s i)
  unfolding backend_async_fail
  backend_async_fail-Ended {G} f spent s i w pre =
      let r = report_failure b cfg api s i in
      let d = report_failure-Dropped laws cfg api s i pre in
      if_cases (Ended G i) r.0
        (λ e.
          of_Steady i (after_backend_release b cfg api f r.1 i)
            (after_release-Steady laws cfg api f spent r.1 i (nd i) w d))
        (λ e. of_Failing i r.1 λ h. let (g, p) = d h in (g, p.failing))

module _ {P : Type 0} {b : Backend P} (base : BackendLaws b) (cfg : Setup) (api : FrontApi) where
  -- All slots are followed.
  abbrev everywhere : Watched b
  everywhere = record { laws = base; follows = λ j. Unit {0}; drops = λ j. ⊥ }

  pub fail_at-Spent : (n : ℕ) → Spent (fail_at b cfg api n)
  unfolding fail_at
  fail_at-Spent zero s i z = none_left (report_failure b cfg api s i).1.sqes λ h.
      (report_failure-Dropped everywhere cfg api {G = ⊥} s i (λ k. absurd (omega (arith, k, z)))
        h).0
  fail_at-Spent (suc n) s i z =
      none_left (backend_async_fail b cfg api (fail_at b cfg api n) s i).1.sqes λ h.
        ((backend_async_fail-Ended everywhere (λ j d. d) cfg api {G = ⊥} (fail_at b cfg api n)
            (fail_at-Spent n) s i tt (λ k. absurd (omega (arith, k, z)))).closable
          h).0

  pub fail-Spent : Spent (λ s i. fail b cfg api s i)
  unfolding fail
  fail-Spent s i z = none_left (fail b cfg api s i).1.sqes λ h.
      ((backend_async_fail-Ended everywhere (λ j d. d) cfg api {G = ⊥} (fail_at b cfg api max_depth)
          (fail_at-Spent max_depth) s i tt (λ k. absurd (omega (arith, k, z)))).closable
        h).0

module _ {P : Type 0} {b : Backend P} (laws : Watched b) (nd : (i : ℕ) → laws.drops i → ⊥)
    (cfg : Setup) (api : FrontApi) where
  pub fail-Ended :
      {G : Type 0} (s : Server P) (i : ℕ)
      → laws.follows i
      → Sure (λ v. G × Failing laws cfg api i v) s
      → Ended laws nd cfg api G i (fail b cfg api s i)
  unfolding fail
  fail-Ended s i w pre =
      backend_async_fail-Ended laws nd cfg api (fail_at b cfg api max_depth)
        (fail_at-Spent laws.laws cfg api max_depth) s i w pre
