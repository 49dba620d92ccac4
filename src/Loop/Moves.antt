-- ===== src/Loop/Moves.antt =====
-- The lanes and the pool of a view change, and no lease does.
use pqproxy.Base.{ℕ, ◌≡◌, ◌≢◌, ◌⊎◌, refl, sym, ap, subst, ◌∙◌, inl, inr, true, Option, some}
use pqproxy.Loop.{Backend, Lane}
use pqproxy.Loop.Schedule.{is_working}
use pqproxy.Loop.Leases.{
  View, Watched, Phased, Given, relane, repool, at_slot, Leases, Loose, Steady,
}

module _ {P : Type 0} {b : Backend P} (laws : Watched b) where
  -- A lane that keeps its connection.
  relane-be :
      (v : View P) (i : ℕ) (l : Lane)
      → l.be ≡ (v.lanes i).be
      → (j : ℕ) → ((relane v i l).lanes j).be ≡ (v.lanes j).be
  relane-be v i l e j =
      at_slot (λ (m : Lane). m.be ≡ (v.lanes j).be) v.lanes i j l
        (λ same. e ∙ ap (λ k. (v.lanes k).be) (sym same)) (λ ne. refl)

  relane-Leases :
      {v : View P} (i : ℕ) (l : Lane)
      → l.be ≡ (v.lanes i).be
      → (laws.drops i → is_working l.be_wait ≡ true)
      → Leases laws v
      → Leases laws (relane v i l)
  relane-Leases {v} i l e kept s = record {
    ok = s.ok;
    held = λ j k h. s.held j k (sym (relane-be v i l e j) ∙ h);
    apart = λ j j' k h h'.
        s.apart j j' k (sym (relane-be v i l e j) ∙ h) (sym (relane-be v i l e j') ∙ h');
    owned = λ k h. let (j, f) = s.owned k h in (j, relane-be v i l e j ∙ f);
    short = s.short;
    used = s.used;
    freed = λ j f. relane-be v i l e j ∙ s.freed j f;
    dropped = λ j d.
        at_slot Given v.lanes i j l
          (λ same. let d' = subst laws.drops same d in (e ∙ (s.dropped i d').0, kept d'))
          (λ ne. s.dropped j d);
  }

  pub relane-others :
      (v : View P) (i : ℕ) (l : Lane)
      → ((j : ℕ) → j ≢ i → Phased (v.lanes j))
      → (j : ℕ) → j ≢ i
      → Phased ((relane v i l).lanes j)
  relane-others v i l o j ne = at_slot (λ m. Phased m) v.lanes i j l (λ e. absurd (ne e)) (o j)

  pub relane-Loose :
      {v : View P} {i : ℕ} (l : Lane)
      → l.be ≡ (v.lanes i).be
      → (laws.drops i → is_working l.be_wait ≡ true)
      → Loose laws i v
      → Loose laws i (relane v i l)
  relane-Loose {v} {i} l e kept s = record {
    leases = relane-Leases i l e kept s.leases;
    others = relane-others v i l s.others;
  }

  -- A call of the pool that lends nothing and takes nothing back.
  pub repool-Leases :
      {v : View P} (p : P)
      → laws.Ok p
      → ((j : ℕ) → b.leased p j ≡ b.leased v.pool j)
      → Leases laws v
      → Leases laws (repool v p)
  repool-Leases p ok same s = record {
    ok = ok;
    held = λ j k h. same k ∙ s.held j k h;
    apart = s.apart;
    owned = λ k h. s.owned k (sym (same k) ∙ h);
    short = s.short;
    used = s.used;
    freed = s.freed;
    dropped = s.dropped;
  }

  pub repool-Loose :
      {v : View P} {i : ℕ} (p : P)
      → laws.Ok p
      → ((j : ℕ) → b.leased p j ≡ b.leased v.pool j)
      → Loose laws i v
      → Loose laws i (repool v p)
  repool-Loose p ok same s = record { leases = repool-Leases p ok same s.leases; others = s.others }

  pub repool-Steady :
      {v : View P} (p : P)
      → laws.Ok p
      → ((j : ℕ) → b.leased p j ≡ b.leased v.pool j)
      → Steady laws v
      → Steady laws (repool v p)
  repool-Steady p ok same s = record { leases = repool-Leases p ok same s.leases; each = s.each }

  -- The lane of another client, or this one.
  pub new_lane :
      (v : View P) (i : ℕ) (l : Lane) (j k : ℕ)
      → ((relane v i l).lanes j).be ≡ some k
      → ((j ≡ i) × (l.be ≡ some k)) ⊎ ((j ≢ i) × ((v.lanes j).be ≡ some k))
  new_lane v i l j k =
      at_slot
        (λ (m : Lane).
          m.be ≡ some k → ((j ≡ i) × (l.be ≡ some k)) ⊎ ((j ≢ i) × ((v.lanes j).be ≡ some k)))
        v.lanes i j l (λ e h. inl (e, h)) (λ ne h. inr (ne, h))

  pub old_lane :
      (v : View P) (i : ℕ) (l : Lane) (j : ℕ) {o : Option ℕ}
      → j ≢ i
      → (v.lanes j).be ≡ o
      → ((relane v i l).lanes j).be ≡ o
  old_lane v i l j {o} ne h =
      at_slot (λ (m : Lane). m.be ≡ o) v.lanes i j l (λ e. absurd (ne e)) (λ ne'. h)
