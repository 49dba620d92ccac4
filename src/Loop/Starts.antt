-- ===== src/Loop/Starts.antt =====
-- A start of a pipeline: the submissions and the launch.
use pqproxy.Base.{
  ℕ, ◌-◌, ◌<◌, ◌≡◌, refl, sym, ap, subst, ◌∙◌, Bool, true, false, true_not_false, if_cases, ◌&&◌,
  ◌||◌, not, [], ◌∷◌, Option, none, some, Str, ◌==◌, if◌then◌else◌, arith,
}
use pqproxy.Loop.{
  Backend, BeWait, be_idle, be_sending, be_reading, be_waiting_pool, Lane, Client, Server, Setup,
  Handled, put, put_lane, put_pool,
}
use pqproxy.Loop.Schedule.{
  is_idle, is_working, is_some, submit_be_recv, submit_bytes, submit_be_send, launch,
}
use pqproxy.Loop.Leases.{
  Watched, View, view, relane, repool, Sure, Phased, rests, sends, reads, drops, slot_self,
  put-relane, Loose, Steady, Open,
}
use pqproxy.Loop.Moves.{relane-Loose}

-- `fail` gives no submission entry back.
abbrev pub Spent : {P : Type 0} → (Server P → ℕ → Handled P) → Type 0
Spent {P} fail = (s : Server P) (i : ℕ) → s.sqes ≡ 0 → (fail s i).1.sqes ≡ 0

pub idle_rests : (w : BeWait) → is_idle w ≡ true → is_working w ≡ false
idle_rests be_idle h = refl
idle_rests be_waiting_pool h = refl
idle_rests be_sending h = cc
idle_rests be_reading h = cc

module _ {P : Type 0} {b : Backend P} (laws : Watched b) (cfg : Setup) where
  -- The lane has a connection, and nothing is submitted for it.
  pub record Sendable (i : ℕ) (v : View P) : Type 0 where
    pub loose : Loose laws i v
    pub some_be : is_some (v.lanes i).be ≡ true
    pub not_sending : (v.lanes i).be_send_pending ≡ false
    pub not_reading : (v.lanes i).be_recv_pending ≡ false

  -- The lane is free for a start.
  pub record Ready (i : ℕ) (v : View P) : Type 0 where
    pub steady : Steady laws v
    pub idle : is_idle (v.lanes i).be_wait ≡ true

  -- A start worked, or the submission queue is full.
  pub record Started (G : Type 0) (i : ℕ) (r : Handled P) : Type 0 where
    pub opened : Sure (λ v. G × Open laws i v) r.1
    pub full : r.0 ≡ false → r.1.sqes ≡ 0

  pub Ready-lane :
      {i : ℕ} {v : View P}
      → Ready i v
      → ((v.lanes i).be ≡ none)
        × ((v.lanes i).be_send_pending ≡ false)
        × ((v.lanes i).be_recv_pending ≡ false)
  Ready-lane {i} {v} r = from (v.lanes i) (r.steady.each i) r.idle
    where
      from :
          (l : Lane)
          → Phased l
          → is_idle l.be_wait ≡ true
          → (l.be ≡ none) × (l.be_send_pending ≡ false) × (l.be_recv_pending ≡ false)
      from l (rests e f g h) idle = (e, f, g)
      from l (sends e f g h) idle = absurd (true_not_false idle (ap is_idle h))
      from l (reads e f g h) idle = absurd (true_not_false idle (ap is_idle h))
      from l (drops e w) idle = absurd (true_not_false w (idle_rests l.be_wait idle))

  -- A lane of a client is written, and is in order without its draining flag.
  relane-Open :
      {G : Type 0} (s : Server P) (i : ℕ) (l : Lane) (n : ℕ)
      → G × Loose laws i (view s)
      → l.be ≡ (s.conns i).be
      → is_working l.be_wait ≡ true
      → Phased (record l { draining_queue = false })
      → G × Open laws i (view (put_lane (record s { sqes = n }) i l))
  relane-Open {G} s i l n (g, loose) e works ph =
      let at : view (put_lane (record s { sqes = n }) i l) ≡ relane (view s) i l =
        put-relane s i (record (s.conns i) { lane = l }) refl refl in
      (
        g,
        subst (Open laws i) (sym at) (record {
          loose = relane-Loose laws l e (λ d. works) loose;
          own =
              subst (λ (m : Lane). Phased (record m { draining_queue = false }))
                (sym (slot_self (view s).lanes i l)) ph;
        }),
      )

  pub submit_be_recv-Started :
      {G : Type 0} (s : Server P) (i : ℕ)
      → Sure (λ v. G × Sendable i v) s
      → Started G i (submit_be_recv b cfg s i)
  unfolding submit_be_recv
  submit_be_recv-Started {G} s i pre =
      let lane = (s.conns i).lane in
      if_cases (Started G i) (not (is_some lane.be) || lane.be_recv_pending)
        (λ e. record {
          opened = λ h.
              let (g, p) = pre h in
              absurd (clash_or (is_some lane.be) lane.be_recv_pending p.some_be p.not_reading e);
          full = λ e. absurd (true_not_false refl e);
        })
        λ e.
          if_cases (Started G i) (s.sqes == 0)
            (λ z. record {
              opened = λ h. absurd (ground (arith, h, z));
              full = λ f. ground (arith, z);
            })
            λ z. record {
              opened = λ h.
                  let (g, p) = pre (omega arith) in
                  relane-Open s i (record lane { be_recv_pending = true; be_wait = be_reading })
                    (s.sqes - 1) (g, p.loose) refl refl (reads p.some_be p.not_sending refl refl);
              full = λ e. absurd (true_not_false refl e);
            }
    where
      clash_or : (x y : Bool) → x ≡ true → y ≡ false → (not x || y) ≡ true → ⊥
      clash_or true false h1 h2 h3 = cc
      clash_or true true h1 h2 h3 = cc
      clash_or false y h1 h2 h3 = cc

  submit_bytes-Started :
      {G : Type 0} (s : Server P) (i : ℕ) (bytes : Str)
      → Sure (λ v. G × Sendable i v) s
      → Started G i (submit_bytes b cfg s i bytes)
  unfolding submit_bytes
  submit_bytes-Started {G} s i [] pre =
      let l : Lane = record (s.conns i).lane { be_wait = be_reading } in
      let at : view (put_lane s i l) ≡ relane (view s) i l =
        put-relane s i (record (s.conns i) { lane = l }) refl refl in
      submit_be_recv-Started (put_lane s i l) i λ h.
        let (g, p) = pre h in
        (
          g,
          subst (Sendable i) (sym at) (record {
            loose = relane-Loose laws l refl (λ d. refl) p.loose;
            some_be =
                subst (λ (m : Lane). is_some m.be ≡ true) (sym (slot_self (view s).lanes i l))
                  p.some_be;
            not_sending =
                subst (λ (m : Lane). m.be_send_pending ≡ false) (sym (slot_self (view s).lanes i l))
                  p.not_sending;
            not_reading =
                subst (λ (m : Lane). m.be_recv_pending ≡ false) (sym (slot_self (view s).lanes i l))
                  p.not_reading;
          }),
        )
  submit_bytes-Started {G} s i (byte ∷ bytes) pre =
      if_cases (Started G i) (s.sqes == 0)
        (λ z. record { opened = λ h. absurd (ground (arith, h, z)); full = λ f. ground (arith, z) })
        λ z. record {
          opened = λ h.
              let (g, p) = pre (omega arith) in
              relane-Open s i
                (record (s.conns i).lane { be_send_pending = true; be_wait = be_sending })
                (s.sqes - 1) (g, p.loose) refl refl (sends p.some_be refl p.not_reading refl);
          full = λ e. absurd (true_not_false refl e);
        }

  pub submit_be_send-Started :
      {G : Type 0} (s : Server P) (i : ℕ)
      → Sure (λ v. G × Sendable i v) s
      → Started G i (submit_be_send b cfg s i)
  unfolding submit_be_send
  submit_be_send-Started {G} s i pre = at (s.conns i).be refl
    where
      at :
          (o : Option ℕ)
          → (s.conns i).be ≡ o
          → Started G i (elim o as (λ x. Handled P) [
            | none ↦ (true, s)
            | some k ↦
                if (s.conns i).be_send_pending
                then (true, s)
                else submit_bytes b cfg s i (b.send_ptr s.pool k)
          ])
      at none e = record {
        opened = λ h. let (g, p) = pre h in absurd (true_not_false p.some_be (ap is_some e));
        full = λ f. absurd (true_not_false refl f);
      }
      at (some k) e =
          if_cases (Started G i) (s.conns i).be_send_pending
            (λ t. record {
              opened = λ h. let (g, p) = pre h in absurd (true_not_false t p.not_sending);
              full = λ f. absurd (true_not_false refl f);
            })
            (λ f. submit_bytes-Started s i (b.send_ptr s.pool k) pre)

  pub launch-Started :
      {G : Type 0} (fail : Server P → ℕ → Handled P)
      → Spent fail
      → (from_queue : Bool) (s : Server P) (i k : ℕ) (q : P)
      → (0 < s.sqes
          → G
            × Loose laws i (relane (repool (view s) q) i (record (s.conns i).lane { be = some k }))
            × ((s.conns i).be_send_pending ≡ false)
            × ((s.conns i).be_recv_pending ≡ false))
      → Started G i (launch b cfg fail from_queue (put_pool s q) i k)
  unfolding launch
  launch-Started {G} fail spent from_queue s i k q pre =
      let c = s.conns i in
      let l : Lane = record c.lane { be = some k } in
      let c' : Client = record c {
        lane = l;
        be_resp = [];
        got_execute = c.got_execute && not from_queue;
        got_sync = c.got_sync && not from_queue;
      } in
      let s1 = put (put_pool s q) i c' in
      let at : view s1 ≡ relane (repool (view s) q) i l =
        put-relane (put_pool s q) i c' refl refl in
      let r = submit_be_send b cfg s1 i in
      let o : Started G i r = submit_be_send-Started s1 i λ h.
        let (g, loose, ns, nr) = pre h in
        let self = slot_self (view s).lanes i l in
        (
          g,
          subst (Sendable i) (sym at) (record {
            loose = loose;
            some_be = ap (λ (m : Lane). is_some m.be) self;
            not_sending = ap (λ (m : Lane). m.be_send_pending) self ∙ ns;
            not_reading = ap (λ (m : Lane). m.be_recv_pending) self ∙ nr;
          }),
        ) in
      if_cases (Started G i) r.0
        (λ e. record { opened = o.opened; full = λ f. absurd (true_not_false refl f) })
        λ e.
          let z = spent r.1 i (o.full e) in
          record { opened = λ h. absurd (ground (arith, h, z)); full = λ f. z }
