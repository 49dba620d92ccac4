-- ===== src/Loop/Renews.antt =====
-- A client is written, and no lease changes.
use pqproxy.Base.{ℕ, ◌≤◌, ◌≡◌, refl, sym, ap, subst, ◌∙◌, true, false, true_not_false, none, length}
use pqproxy.Loop.{Backend, BackendLaws, Lane, Client, Server, put}
use pqproxy.Loop.Schedule.{is_free}
use pqproxy.Loop.Leases.{
  View, Watched, Phased, Given, view, at_slot, Loose, Steady, Steady-Loose, kept_at,
}

module _ {P : Type 0} {b : Backend P} (laws : Watched b) where
  -- A write of slot `i`, whose lane may be any that is in order.
  pub renew-Steady :
      {v : View P} (i : ℕ) (s : Server P) (c : Client)
      → view s ≡ v
      → c.be ≡ (s.conns i).be
      → length c.id.group ≤ 127
      → (laws.follows i → is_free c.state ≡ false)
      → (is_free c.state ≡ true → c.be ≡ none)
      → (laws.drops i → Given c.lane)
      → Phased c.lane
      → Loose laws i v
      → Steady laws (view (put s i c))
  renew-Steady i s c at e g f empty d ph l =
      let lo = subst (Loose laws i) (sym at) l in
      let be = kept_at s i c (λ d. d.be) e in
      record {
        leases = record {
          ok = lo.leases.ok;
          held = λ j k h. lo.leases.held j k (sym (be j) ∙ h);
          apart = λ j j' k h h'. lo.leases.apart j j' k (sym (be j) ∙ h) (sym (be j') ∙ h');
          owned = λ k h. let (j, p) = lo.leases.owned k h in (j, be j ∙ p);
          short = λ j.
              at_slot (λ (d : Client). length d.id.group ≤ 127) s.conns i j c (λ same. g)
                (λ ne. lo.leases.short j);
          used = λ j w.
              at_slot (λ (d : Client). is_free d.state ≡ false) s.conns i j c
                (λ same. f (subst laws.follows same w)) (λ ne. lo.leases.used j w);
          freed = λ j.
              at_slot (λ (d : Client). is_free d.state ≡ true → d.be ≡ none) s.conns i j c
                (λ same. empty) (λ ne. lo.leases.freed j);
          dropped = λ j w.
              at_slot (λ (x : Client). Given x.lane) s.conns i j c
                (λ same. d (subst laws.drops same w)) (λ ne. lo.leases.dropped j w);
        };
        each = λ j.
            at_slot (λ (x : Client). Phased x.lane) s.conns i j c (λ same. ph)
              (λ ne. lo.others j ne);
      }

  -- A client that is to be closed.
  pub put-Steady :
      (s : Server P) (i : ℕ) (c : Client)
      → c.lane ≡ (s.conns i).lane
      → length c.id.group ≤ 127
      → is_free c.state ≡ false
      → Steady laws (view s)
      → Steady laws (view (put s i c))
  put-Steady s i c e g f st =
      renew-Steady i s c refl (ap (λ (l : Lane). l.be) e) g (λ w. f)
        (λ t. absurd (true_not_false t f)) (λ d. subst Given (sym e) (st.leases.dropped i d))
        (subst Phased (sym e) (st.each i)) (Steady-Loose laws i st)

-- The same view, with other slots that are followed.
pub rewatch :
    {P : Type 0} {b : Backend P} {w w' : Watched b} {v : View P}
    → w.laws ≡ w'.laws
    → Steady w v
    → ((i : ℕ) → w'.follows i → v.frees i ≡ false)
    → ((i : ℕ) → w'.drops i → Given (v.lanes i))
    → Steady w' v
rewatch {b = b} {w} {w'} {v} e st f d = record {
  leases = record {
    ok = subst (λ (l : BackendLaws b). l.Ok v.pool) e st.leases.ok;
    held = st.leases.held;
    apart = st.leases.apart;
    owned = st.leases.owned;
    short = st.leases.short;
    used = f;
    freed = st.leases.freed;
    dropped = d;
  };
  each = st.each;
}
