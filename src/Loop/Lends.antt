-- ===== src/Loop/Lends.antt =====
-- A lane takes over a connection that was lent, or gives its connection back.
use pqproxy.Base.{
  ℕ, ◌≡◌, ◌≢◌, ◌⊎◌, sym, ap, subst, ◌∙◌, inl, inr, Bool, true, false, Bool-cases, Option, none,
  some, ◌==◌, ==_iff,
}
use pqproxy.Loop.{Backend, Lane}
use pqproxy.Loop.Schedule.{is_working}
use pqproxy.Loop.Leases.{View, Watched, Given, relane, repool, at_slot, slot_self, Loose}
use pqproxy.Loop.Moves.{relane-others, new_lane, old_lane}

module _ {P : Type 0} {b : Backend P} (laws : Watched b) where
  -- A lane without a connection takes over one that was just lent.
  pub lend-Loose :
      {v : View P} {i k : ℕ} (q : P) (l : Lane)
      → Loose laws i v
      → (v.lanes i).be ≡ none
      → laws.Ok q
      → b.leased v.pool k ≡ false
      → b.leased q k ≡ true
      → ((j : ℕ) → j ≢ k → b.leased q j ≡ b.leased v.pool j)
      → l.be ≡ some k
      → (laws.drops i → ⊥)
      → v.frees i ≡ false
      → Loose laws i (relane (repool v q) i l)
  lend-Loose {v} {i} {k} q l s empty ok idle taken same be nd live = record {
    leases = record {
      ok = ok;
      held = λ j k' h. elim (new_lane laws v i l j k' h) [
        | inl (e, f) ↦ subst (λ n. b.leased q n ≡ true) (one be f) taken
        | inr (ne, f) ↦
            let g = s.leases.held j k' f in
            same k' (λ e. absurd (clash (ap (b.leased v.pool) e) g idle)) ∙ g
      ];
      apart =
          λ j j' k' h h'. both j j' k' (new_lane laws v i l j k' h) (new_lane laws v i l j' k' h');
      owned = λ k' h. elim (Bool-cases (k' == k)) [
        | inl e ↦ (i, slot_be ∙ be ∙ ap some (sym ((==_iff k' k).0 e)))
        | inr e ↦
            let ne : k' ≢ k = λ f. clash' ((==_iff k' k).1 f) e in
            let (j, f) = s.leases.owned k' (sym (same k' ne) ∙ h) in
            (
              j,
              old_lane laws v i l j
                  (λ g. absurd (nothing_there (sym empty ∙ ap (λ n. (v.lanes n).be) (sym g) ∙ f)))
                  f,
            )
      ];
      short = s.leases.short;
      used = s.leases.used;
      freed = λ j f.
          at_slot (λ (m : Lane). m.be ≡ none) v.lanes i j l
            (λ e. absurd (clash' (ap v.frees (sym e) ∙ f) live)) (λ ne. s.leases.freed j f);
      dropped = λ j d.
          at_slot Given v.lanes i j l (λ e. absurd (nd (subst laws.drops e d)))
            (λ ne. s.leases.dropped j d);
    };
    others = relane-others laws v i l s.others;
  }
    where
      one : {x y : ℕ} {o : Option ℕ} → o ≡ some x → o ≡ some y → x ≡ y
      one h1 h2 = cc

      clash : {x y : Bool} → x ≡ y → x ≡ true → y ≡ false → ⊥
      clash e h1 h2 = cc

      clash' : {x : Bool} → x ≡ true → x ≡ false → ⊥
      clash' h1 h2 = cc

      nothing_there : {x : ℕ} → none ≡ some x → ⊥
      nothing_there h = cc

      slot_be : ((relane v i l).lanes i).be ≡ l.be
      slot_be = ap (λ (m : Lane). m.be) (slot_self v.lanes i l)

      fresh : (j k' : ℕ) → l.be ≡ some k' → (v.lanes j).be ≡ some k' → ⊥
      fresh j k' f g = clash (ap (b.leased v.pool) (one f be)) (s.leases.held j k' g) idle

      both :
          (j j' k' : ℕ)
          → ((j ≡ i) × (l.be ≡ some k')) ⊎ ((j ≢ i) × ((v.lanes j).be ≡ some k'))
          → ((j' ≡ i) × (l.be ≡ some k')) ⊎ ((j' ≢ i) × ((v.lanes j').be ≡ some k'))
          → j ≡ j'
      both j j' k' (inl (e, f)) (inl (e', f')) = e ∙ sym e'
      both j j' k' (inl (e, f)) (inr (ne, f')) = absurd (fresh j' k' f f')
      both j j' k' (inr (ne, f)) (inl (e, f')) = absurd (fresh j k' f' f)
      both j j' k' (inr (ne, f)) (inr (ne', f')) = s.leases.apart j j' k' f f'

  -- A lane gives its connection back.
  pub take_back-Loose :
      {v : View P} {i k : ℕ} (q : P) (l : Lane)
      → Loose laws i v
      → (v.lanes i).be ≡ some k
      → laws.Ok q
      → b.leased q k ≡ false
      → ((j : ℕ) → j ≢ k → b.leased q j ≡ b.leased v.pool j)
      → l.be ≡ none
      → (laws.drops i → is_working l.be_wait ≡ true)
      → Loose laws i (relane (repool v q) i l)
  take_back-Loose {v} {i} {k} q l s be ok freed same empty kept = record {
    leases = record {
      ok = ok;
      held = λ j k' h. elim (new_lane laws v i l j k' h) [
        | inl (e, f) ↦ absurd (nothing_there (sym empty ∙ f))
        | inr (ne, f) ↦
            same k' (λ e. ne (s.leases.apart j i k' f (be ∙ ap some (sym e))))
            ∙ s.leases.held j k' f
      ];
      apart =
          λ j j' k' h h'. both j j' k' (new_lane laws v i l j k' h) (new_lane laws v i l j' k' h');
      owned = λ k' h.
          let ne : k' ≢ k = λ e. clash (ap (b.leased q) e) h freed in
          let (j, f) = s.leases.owned k' (sym (same k' ne) ∙ h) in
          (j, old_lane laws v i l j (λ g. ne (one (sym (ap (λ n. (v.lanes n).be) g) ∙ f) be)) f);
      short = s.leases.short;
      used = s.leases.used;
      freed = λ j f.
          at_slot (λ (m : Lane). m.be ≡ none) v.lanes i j l (λ e. empty) (λ ne. s.leases.freed j f);
      dropped = λ j d.
          at_slot Given v.lanes i j l (λ e. (empty, kept (subst laws.drops e d)))
            (λ ne. s.leases.dropped j d);
    };
    others = relane-others laws v i l s.others;
  }
    where
      one : {x y : ℕ} {o : Option ℕ} → o ≡ some x → o ≡ some y → x ≡ y
      one h1 h2 = cc

      clash : {x y : Bool} → x ≡ y → x ≡ true → y ≡ false → ⊥
      clash e h1 h2 = cc

      nothing_there : {x : ℕ} → none ≡ some x → ⊥
      nothing_there h = cc

      both :
          (j j' k' : ℕ)
          → ((j ≡ i) × (l.be ≡ some k')) ⊎ ((j ≢ i) × ((v.lanes j).be ≡ some k'))
          → ((j' ≡ i) × (l.be ≡ some k')) ⊎ ((j' ≢ i) × ((v.lanes j').be ≡ some k'))
          → j ≡ j'
      both j j' k' (inr (ne, f)) (inr (ne', f')) = s.leases.apart j j' k' f f'
      both j j' k' (inl (e, f)) r = absurd (nothing_there (sym empty ∙ f))
      both j j' k' (inr (ne, f)) (inl (e, f')) = absurd (nothing_there (sym empty ∙ f'))
