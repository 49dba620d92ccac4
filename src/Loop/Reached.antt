-- ===== src/Loop/Reached.antt =====
-- What holds of the backend connections in every state that the event loop reaches.
use pqproxy.Base.{
  ℕ, ◌≤◌, ◌<◌, ◌≡◌, refl, sym, ap, subst, ◌∙◌, inl, inr, true, false, true_not_false, Bool-cases,
  none, some, length, arith,
}
use pqproxy.Loop.{Backend, BackendLaws, cs_free, Lane, Server, Setup, FrontApi}
use pqproxy.Loop.Schedule.{is_free, is_working}
use pqproxy.Loop.Serving.{resting}
use pqproxy.Loop.Dispatch.{Completion, on_completion, serve}
use pqproxy.Loop.Leases.{view, Phased, rests, sends, reads, drops, Steady}
use pqproxy.Loop.Closing.{plain}
use pqproxy.Loop.Turns.{timely, on_completion-Steady}

-- A pool in order that has lent nothing, and no client.
pub record Fresh {P : Type 0} {b : Backend P} (base : BackendLaws b) (s : Server P) : Type 0 where
  pub ok : base.Ok s.pool
  pub unlent : (k : ℕ) → b.leased s.pool k ≡ false
  pub at_rest : (i : ℕ) → (s.conns i).lane ≡ resting
  pub free : (i : ℕ) → (s.conns i).state ≡ cs_free
  pub short : (i : ℕ) → length (s.conns i).id.group ≤ 127

-- The states after rounds of the loop. The ring answers what was submitted, and its submission
-- queue, which a round starts with empty, is not full at the end of the round.
pub data Reached {P : Type 0} (b : Backend P) (cfg : Setup) (api : FrontApi) (start : Server P)
    : Server P → Type 0 where
  starts : Reached b cfg api start start
  turns :
      {s : Server P} (event : Completion)
      → Reached b cfg api start s
      → timely s event ≡ true
      → 0 < (on_completion b cfg api s event).sqes
      → Reached b cfg api start (serve b cfg api s event)

-- Each lent connection is held by exactly one client, whose slot is in use and which works on it.
pub record Exclusive {P : Type 0} (b : Backend P) (s : Server P) : Type 0 where
  pub held : (k : ℕ) → b.leased s.pool k ≡ true → (i : ℕ) × ((s.conns i).be ≡ some k)
  pub lent : (i k : ℕ) → (s.conns i).be ≡ some k → b.leased s.pool k ≡ true
  pub alone : (i j k : ℕ) → (s.conns i).be ≡ some k → (s.conns j).be ≡ some k → i ≡ j
  pub in_use : (i k : ℕ) → (s.conns i).be ≡ some k → is_free (s.conns i).state ≡ false
  pub works : (i k : ℕ) → (s.conns i).be ≡ some k → is_working (s.conns i).be_wait ≡ true

-- The submission queue of a reached state is empty.
entries :
    {P : Type 0} {b : Backend P} {cfg : Setup} {api : FrontApi} {start s : Server P}
    → 0 < start.sqes
    → Reached b cfg api start s
    → 0 < s.sqes
unfolding serve
entries h starts = h
entries h (turns event r t q) = omega arith

module _ {P : Type 0} {b : Backend P} (base : BackendLaws b) where
  Fresh-Steady : {s : Server P} → Fresh base s → Steady (plain base) (view s)
  Fresh-Steady {s} f =
      let be : (i : ℕ) → (s.conns i).be ≡ none = λ i. ap (λ (l : Lane). l.be) (f.at_rest i) in
      record {
        leases = record {
          ok = f.ok;
          held = λ i k h. absurd (nothing_there (sym (be i) ∙ h));
          apart = λ i j k h h'. absurd (nothing_there (sym (be i) ∙ h));
          owned = λ k h. absurd (true_not_false h (f.unlent k));
          short = f.short;
          used = λ i w. absurd w;
          freed = λ i e. be i;
          dropped = λ i d. absurd d;
        };
        each = λ i. subst Phased (sym (f.at_rest i)) (rests refl refl refl refl);
      }
    where
      nothing_there : {k : ℕ} → none ≡ some k → ⊥
      nothing_there h = cc

  Steady-Exclusive : {s : Server P} → Steady (plain base) (view s) → Exclusive b s
  Steady-Exclusive {s} st = record {
    held = st.leases.owned;
    lent = st.leases.held;
    alone = st.leases.apart;
    in_use = λ i k h. elim (Bool-cases (is_free (s.conns i).state)) [
      | inl e ↦ absurd (nothing_there (sym (st.leases.freed i e) ∙ h))
      | inr e ↦ e
    ];
    works = λ i k h. at_work (s.conns i).lane h (st.each i);
  }
    where
      nothing_there : {k : ℕ} → none ≡ some k → ⊥
      nothing_there h = cc

      at_work : (l : Lane) {k : ℕ} → l.be ≡ some k → Phased l → is_working l.be_wait ≡ true
      at_work l at (rests e f g h) = absurd (nothing_there (sym e ∙ at))
      at_work l at (sends e f g h) = ap is_working h
      at_work l at (reads e f g h) = ap is_working h
      at_work l at (drops e w) = w

  module _ (cfg : Setup) (api : FrontApi) (pooled : cfg.has_pool ≡ true) where
    Reached-Steady :
        {start s : Server P}
        → Fresh base start
        → 0 < start.sqes
        → Reached b cfg api start s
        → Steady (plain base) (view s)
    unfolding serve
    Reached-Steady f h starts = Fresh-Steady f
    Reached-Steady f h (turns {s = s} event r t q) =
        (on_completion-Steady base cfg api pooled (Unit {0}) s event t
          (λ e. (tt, Reached-Steady f h r)) q).1

    -- x
    pub Reached-Exclusive :
        {start s : Server P}
        → Fresh base start
        → 0 < start.sqes
        → Reached b cfg api start s
        → Exclusive b s
    Reached-Exclusive f h r = Steady-Exclusive (Reached-Steady f h r)
