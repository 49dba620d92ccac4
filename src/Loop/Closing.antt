-- ===== src/Loop/Closing.antt =====
-- close_conn gives a client's backend connection back, and accept_one takes none over.
use pqproxy.Base.{
  ℕ, ◌≡◌, refl, sym, ap, subst, ◌∙◌, ◌⊎◌, inl, inr, Bool, true, false, Bool-cases, true_not_false,
  if_cases, ◌&&◌, Option, none, some, ◌==◌, if◌then◌else◌,
}
use pqproxy.WaitRing.{waiters_remove}
use pqproxy.Metrics.{set_pool_waiters}
use pqproxy.Loop.{
  Backend, BackendLaws, Lane, Server, Setup, FrontApi, Handled, note, put_lane, put_pool,
}
use pqproxy.Loop.Schedule.{is_free, is_some, is_working, finish_be}
use pqproxy.Loop.Rounds.{fail_at}
use pqproxy.Loop.Pipelines.{max_depth}
use pqproxy.Loop.Serving.{release_be, close_conn, closed, or_close}
use pqproxy.Loop.Leases.{
  Watched, View, view, relane, Sure, Phased, rests, sends, reads, drops, Given, slot_self,
  put-relane, Loose, Steady, Steady-Loose, Loose-Steady,
}
use pqproxy.Loop.Lends.{take_back-Loose}
use pqproxy.Loop.Renews.{renew-Steady, rewatch}
use pqproxy.Loop.Grants.{fair_schedule-Steady}
use pqproxy.Loop.Failures.{Closable, Ended, fail_at-Spent}

-- The laws alone; with a slot that stays in use; with a slot that gave its connection back.
abbrev pub plain : {P : Type 0} {b : Backend P} → BackendLaws b → Watched b
plain base = record { laws = base; follows = λ j. ⊥; drops = λ j. ⊥ }

abbrev pub using : {P : Type 0} {b : Backend P} → BackendLaws b → ℕ → Watched b
using base i = record { laws = base; follows = λ j. j ≡ i; drops = λ j. ⊥ }

abbrev dropping : {P : Type 0} {b : Backend P} → BackendLaws b → ℕ → Watched b
dropping base i = record { laws = base; follows = λ j. ⊥; drops = λ j. j ≡ i }

module _ {P : Type 0} {b : Backend P} (base : BackendLaws b) (cfg : Setup) (api : FrontApi)
    (pooled : cfg.has_pool ≡ true) where
  -- The same leases, with other slots that are followed.
  rewatch-Loose :
      {w : Watched b} (i : ℕ) (v : View P) → w.laws ≡ base → Loose w i v → Loose (plain base) i v
  rewatch-Loose i v e l = record {
    leases = record {
      ok = subst (λ (x : BackendLaws b). x.Ok v.pool) e l.leases.ok;
      held = l.leases.held;
      apart = l.leases.apart;
      owned = l.leases.owned;
      short = l.leases.short;
      used = λ j f. absurd f;
      freed = l.leases.freed;
      dropped = λ j d. absurd d;
    };
    others = l.others;
  }

  -- A client that is to be closed: its slot is in use.
  abbrev pub ToClose : Type 0 → ℕ → Server P → Type 0
  ToClose G i s = Sure (λ v. G × Closable (using base i) (λ j d. d) cfg api i v) s

  -- After the connection was given back.
  abbrev Without : Type 0 → ℕ → Server P → Type 0
  Without G i s = Sure (λ v. G × Loose (plain base) i v × ((v.lanes i).be ≡ none)) s

  given_back :
      {G : Type 0} (s : Server P) (i : ℕ)
      → is_some (s.conns i).be ≡ true
      → ToClose G i s
      → Sure (λ v. G × Steady (dropping base i) v) (finish_be b cfg s i true)
  unfolding finish_be
  given_back {G} s i has pre = at (s.conns i).be refl
    where
      at_work :
          (l : Lane)
          → is_some l.be ≡ true
          → Phased l ⊎ (is_working l.be_wait ≡ true)
          → is_working l.be_wait ≡ true
      at_work l t (inl (rests e f g h)) = absurd (true_not_false t (ap is_some e))
      at_work l t (inl (sends e f g h)) = ap is_working h
      at_work l t (inl (reads e f g h)) = ap is_working h
      at_work l t (inl (drops e w)) = w
      at_work l t (inr w) = w

      at :
          (o : Option ℕ)
          → (s.conns i).be ≡ o
          → Sure
              (λ v. G × Steady (dropping base i) v)
              (elim o as (λ x. Server P) [
                | none ↦ s
                | some k ↦
                    put_lane
                      (put_pool s (b.finish s.pool k true))
                      i
                      (record (s.conns i).lane { be = none })
              ])
      at none e h = absurd (true_not_false has (ap is_some e))
      at (some k) e h =
          let (g, p) = pre h in
          let q = b.finish s.pool k true in
          let l : Lane = record (s.conns i).lane { be = none } in
          let lo = rewatch-Loose {w = using base i} i (view s) refl p.loose in
          let (ok, freed, same) = base.finishes s.pool k true lo.leases.ok (lo.leases.held i k e) in
          let works = at_work (s.conns i).lane has p.lane in
          let self = slot_self (view s).lanes i l in
          let given : Given (if i == i then l else (s.conns i).lane) =
            (ap (λ (m : Lane). m.be) self, ap (λ (m : Lane). is_working m.be_wait) self ∙ works) in
          (
            g,
            subst (Steady (dropping base i))
                (sym (put-relane (put_pool s q) i (record (s.conns i) { lane = l }) refl refl))
                (rewatch {w = plain base} refl
                  (Loose-Steady (plain base)
                    (take_back-Loose (plain base) q l lo e ok freed same refl (λ d. absurd d))
                    (drops given.0 given.1))
                  (λ j f. absurd f)
                  (λ j same'.
                    subst (λ n. Given ((relane (view s) i l).lanes n)) (sym same') given)),
          )

  release-Without :
      {G : Type 0} (s : Server P) (i : ℕ) → ToClose G i s → Without G i (release_be b cfg api s i)
  unfolding release_be
  release-Without {G} s i pre =
      let s' = finish_be b cfg s i true in
      if_cases (Without G i) (is_some (s.conns i).be && cfg.has_pool)
        (λ e h.
          let has = left (is_some (s.conns i).be) cfg.has_pool e in
          let (g, st) =
            fair_schedule-Steady (dropping base i) cfg api (fail_at b cfg api max_depth)
              (fail_at-Spent base cfg api max_depth) s' (given_back s i has pre) h in
          (
            g,
            rewatch-Loose {w = dropping base i} i _ refl (Steady-Loose (dropping base i) i st),
            (st.leases.dropped i refl).0,
          ))
        (λ e h.
          let (g, p) = pre h in
          (
            g,
            rewatch-Loose {w = using base i} i (view s) refl p.loose,
            no_be (s.conns i).be (right (is_some (s.conns i).be) cfg.has_pool pooled e),
          ))
    where
      left : (x y : Bool) → (x && y) ≡ true → x ≡ true
      left true y e = refl
      left false y e = cc

      right : (x y : Bool) → y ≡ true → (x && y) ≡ false → x ≡ false
      right true true h e = cc
      right true false h e = cc
      right false y h e = refl

      no_be : (o : Option ℕ) → is_some o ≡ false → o ≡ none
      no_be none e = refl
      no_be (some k) e = cc

  pub close_conn-Steady :
      {G : Type 0} (s : Server P) (i : ℕ)
      → ToClose G i s
      → Sure (λ v. G × Steady (plain base) v) (close_conn b cfg api s i)
  unfolding close_conn
  close_conn-Steady {G} s i pre =
      let w = waiters_remove s.waiters i in
      let removed = record s { waiters = w } in
      let told =
        if w.count == s.waiters.count then removed else note (set_pool_waiters w.count) removed in
      let s' = release_be b cfg api told i in
      let ready : ToClose G i told =
        if_cases (ToClose G i) (w.count == s.waiters.count) (λ e. pre) (λ e. pre) in
      let without = release-Without told i ready in
      let c = closed b cfg api (s'.conns i) in
      if_cases (Sure (λ v. G × Steady (plain base) v)) (is_free (s.conns i).state)
        (λ e h. let (g, p) = pre h in absurd (true_not_false e (p.loose.leases.used i refl)))
        (λ e h.
          let (g, l, empty) = without h in
          (
            g,
            renew-Steady (plain base) i s' c refl refl (l.leases.short i) (λ f. absurd f)
                (λ t. empty) (λ d. absurd d) (rests empty refl refl refl) l,
          ))

  pub or_close-Steady :
      {G : Type 0} (i : ℕ) (r : Handled P)
      → Ended (using base i) (λ j d. d) cfg api G i r
      → Sure (λ v. G × Steady (plain base) v) (or_close b cfg api i r)
  unfolding or_close
  or_close-Steady i (true, s) e h =
      let (g, st) = e.steady refl h in (g, rewatch refl st (λ j f. absurd f) (λ j d. absurd d))
  or_close-Steady i (false, s) e h = close_conn-Steady s i e.closable h

  -- A client that may be in use or not.
  pub close_any-Steady :
      {G : Type 0} (s : Server P) (i : ℕ)
      → Sure (λ v. G × Steady (plain base) v) s
      → Sure (λ v. G × Steady (plain base) v) (close_conn b cfg api s i)
  unfolding close_conn
  close_any-Steady {G} s i pre = elim (Bool-cases (is_free (s.conns i).state)) [
    | inl e ↦ free_stays s i e pre
    | inr e ↦ close_conn-Steady s i λ h.
        let (g, st) = pre h in
        let st' : Steady (using base i) (view s) =
          rewatch refl st (λ j f. ap (λ n. is_free (s.conns n).state) f ∙ e) (λ j d. absurd d) in
        (g, record { loose = Steady-Loose (using base i) i st'; lane = inl (st'.each i) })
  ]
    where
      free_stays :
          (s : Server P) (i : ℕ)
          → is_free (s.conns i).state ≡ true
          → Sure (λ v. G × Steady (plain base) v) s
          → Sure (λ v. G × Steady (plain base) v) (close_conn b cfg api s i)
      free_stays s i e pre =
          if_cases (Sure (λ v. G × Steady (plain base) v)) (is_free (s.conns i).state) (λ f. pre)
            (λ f. absurd (true_not_false e f))
