-- ===== src/Loop/Leases.antt =====
-- Who holds which backend connection: what the handlers keep of the lanes, the pool and the groups.
use mathlib.Core.Path.{fun_ext}
use pqproxy.Base.{
  ℕ, ◌≤◌, ◌<◌, ◌≡◌, ◌≢◌, refl, sym, ap, ap₂, subst, ◌∙◌, inl, inr, Bool, true, false, Bool-cases,
  none, some, Str, ◌==◌, ==_iff, if◌then◌else◌, length, arith,
}
use pqproxy.Loop.{Backend, BackendLaws, be_sending, be_reading, Lane, Client, Server, note, put}
use pqproxy.Metrics.{Note}
use pqproxy.Loop.Schedule.{is_working, is_some, is_free}

-- The part of a server that the leases are about.
pub record View (P : Type 0) : Type 0 where
  pub pool : P
  pub lanes : ℕ → Lane
  pub groups : ℕ → Str
  pub frees : ℕ → Bool

-- The laws, and slots that a proof follows: they stay in use, or they have given their connection
-- back and are not idle yet.
pub record Watched {P : Type 0} (b : Backend P) : Type 1 where
  pub laws : BackendLaws b
  pub open laws use *
  pub follows : ℕ → Type 0
  pub drops : ℕ → Type 0

abbrev pub view : {P : Type 0} → Server P → View P
view s = record {
  pool = s.pool;
  lanes = λ j. (s.conns j).lane;
  groups = λ j. (s.conns j).id.group;
  frees = λ j. is_free (s.conns j).state;
}

abbrev pub relane : {P : Type 0} → View P → ℕ → Lane → View P
relane v i l = record v { lanes = λ j. if j == i then l else v.lanes j }

abbrev pub repool : {P : Type 0} → View P → P → View P
repool v p = record v { pool = p }

-- A property of the view, as long as the submission queue has an entry left.
abbrev pub Sure : {P : Type 0} → (View P → Type 0) → Server P → Type 0
Sure Q s = 0 < s.sqes → Q (view s)

-- A lane between the handlers: without a backend connection, or sending, or reading.
pub data Phased (l : Lane) : Type 0 where
  rests :
      l.be ≡ none
      → l.be_send_pending ≡ false
      → l.be_recv_pending ≡ false
      → is_working l.be_wait ≡ false
      → Phased l
  sends :
      is_some l.be ≡ true
      → l.be_send_pending ≡ true
      → l.be_recv_pending ≡ false
      → l.be_wait ≡ be_sending
      → Phased l
  reads :
      is_some l.be ≡ true
      → l.be_send_pending ≡ false
      → l.be_recv_pending ≡ true
      → l.be_wait ≡ be_reading
      → Phased l
  -- The connection is being closed.
  drops : l.be ≡ none → is_working l.be_wait ≡ true → Phased l

-- A lane that gave its connection back.
abbrev pub Given : Lane → Type 0
Given l = (l.be ≡ none) × (is_working l.be_wait ≡ true)

-- What holds at the slot that was written, and at the others.
pub at_slot {ℓ} :
    {A : Type 0} (Q : A → Type ℓ) (f : ℕ → A) (i j : ℕ) (a : A)
    → (j ≡ i → Q a)
    → (j ≢ i → Q (f j))
    → Q (if j == i then a else f j)
at_slot Q f i j a new old = elim (Bool-cases (j == i)) [
  | inl e ↦ subst (λ b. Q (if b then a else f j)) (sym e) (new ((==_iff j i).0 e))
  | inr e ↦
      subst (λ b. Q (if b then a else f j)) (sym e) (old (λ same. clash ((==_iff j i).1 same) e))
]
  where
    clash : {b : Bool} → b ≡ true → b ≡ false → ⊥
    clash h1 h2 = cc

pub slot_self : {A : Type 0} (f : ℕ → A) (i : ℕ) (a : A) → (if i == i then a else f i) ≡ a
slot_self f i a = at_slot (λ x. x ≡ a) f i i a (λ e. refl) (λ ne. absurd (ne refl))

-- Views with the same pool, and with the same fields slot by slot.
same_view :
    {P : Type 0} (v : View P) {l l' : ℕ → Lane} {g g' : ℕ → Str} {f f' : ℕ → Bool}
    → ((j : ℕ) → l j ≡ l' j)
    → ((j : ℕ) → g j ≡ g' j)
    → ((j : ℕ) → f j ≡ f' j)
    → record v { lanes = l; groups = g; frees = f }
      ≡ record v { lanes = l'; groups = g'; frees = f' }
same_view v {l} {l'} {g} {g'} {f} {f'} e1 e2 e3 =
    ap₂ (λ (x : ℕ → Lane) (y : ℕ → Str). record v { lanes = x; groups = y; frees = f }) (fun_ext e1)
      (fun_ext e2)
    ∙ ap (λ (z : ℕ → Bool). record v { lanes = l'; groups = g'; frees = z }) (fun_ext e3)

-- What a write of slot `i` keeps there, it keeps at all slots.
pub kept_at :
    {P : Type 0} {A : Type 0} (s : Server P) (i : ℕ) (c : Client) (f : Client → A)
    → f c ≡ f (s.conns i)
    → (j : ℕ) → f ((put s i c).conns j) ≡ f (s.conns j)
kept_at s i c f e j =
    at_slot (λ (d : Client). f d ≡ f (s.conns j)) s.conns i j c
      (λ e'. e ∙ ap (λ k. f (s.conns k)) (sym e')) (λ ne. refl)

-- A write that keeps the group and the use changes the view by the lane alone.
pub put-relane :
    {P : Type 0} (s : Server P) (i : ℕ) (c : Client)
    → c.id.group ≡ (s.conns i).id.group
    → is_free c.state ≡ is_free (s.conns i).state
    → view (put s i c) ≡ relane (view s) i c.lane
put-relane s i c g f =
    same_view (view s)
      (λ j.
        at_slot (λ (d : Client). d.lane ≡ (if j == i then c.lane else (s.conns j).lane)) s.conns i j
          c
          (λ e. sym (
            at_slot (λ l. l ≡ c.lane) (λ k. (s.conns k).lane) i j c.lane (λ e'. refl)
              (λ ne. absurd (ne e))))
          (λ ne. sym (
            at_slot (λ l. l ≡ (s.conns j).lane) (λ k. (s.conns k).lane) i j c.lane
              (λ e. absurd (ne e)) (λ ne'. refl))))
      (kept_at s i c (λ d. d.id.group) g) (kept_at s i c (λ d. is_free d.state) f)

-- A write that keeps the lane too leaves the view alone.
pub put-view :
    {P : Type 0} (s : Server P) (i : ℕ) (c : Client)
    → c.lane ≡ (s.conns i).lane
    → c.id.group ≡ (s.conns i).id.group
    → is_free c.state ≡ is_free (s.conns i).state
    → view (put s i c) ≡ view s
put-view s i c e g f =
    same_view (view s) (kept_at s i c (λ d. d.lane) e) (kept_at s i c (λ d. d.id.group) g)
      (kept_at s i c (λ d. is_free d.state) f)

-- What a handler of a client leaves alone: the view, and no submission entry comes back.
pub record Apart {P : Type 0} (s s' : Server P) : Type 0 where
  pub fewer : s'.sqes ≤ s.sqes
  pub same : view s' ≡ view s

pub Apart-refl : {P : Type 0} (s : Server P) → Apart s s
Apart-refl s = record { fewer = omega arith; same = refl }

pub Apart-trans : {P : Type 0} {r s t : Server P} → Apart r s → Apart s t → Apart r t
Apart-trans a c = record { fewer = omega (arith, a.fewer, c.fewer); same = c.same ∙ a.same }

pub put-Apart :
    {P : Type 0} (s : Server P) (i : ℕ) (c : Client)
    → c.lane ≡ (s.conns i).lane
    → c.id.group ≡ (s.conns i).id.group
    → is_free c.state ≡ is_free (s.conns i).state
    → Apart s (put s i c)
put-Apart s i c e g f = record { fewer = omega arith; same = put-view s i c e g f }

pub note-Apart : {P : Type 0} {s s' : Server P} {n : Note} → Apart s s' → Apart s (note n s')
note-Apart a = record { fewer = a.fewer; same = a.same }

pub Apart-Sure :
    {P : Type 0} (Q : View P → Type 0) {s s' : Server P} → Apart s s' → Sure Q s → Sure Q s'
Apart-Sure Q a q h = subst Q (sym a.same) (q (omega (arith, a.fewer, h)))

module _ {P : Type 0} {b : Backend P} (laws : Watched b) where
  -- The leased connections are those that the lanes hold, each by one lane.
  pub record Leases (v : View P) : Type 0 where
    pub ok : laws.Ok v.pool
    pub held : (i k : ℕ) → (v.lanes i).be ≡ some k → b.leased v.pool k ≡ true
    pub apart : (i j k : ℕ) → (v.lanes i).be ≡ some k → (v.lanes j).be ≡ some k → i ≡ j
    pub owned : (k : ℕ) → b.leased v.pool k ≡ true → (i : ℕ) × ((v.lanes i).be ≡ some k)
    pub short : (i : ℕ) → length (v.groups i) ≤ 127
    pub used : (i : ℕ) → laws.follows i → v.frees i ≡ false
    pub freed : (i : ℕ) → v.frees i ≡ true → (v.lanes i).be ≡ none
    pub dropped : (i : ℕ) → laws.drops i → Given (v.lanes i)

  -- All lanes but that of `i` are between the handlers; then all lanes; and all, that of `i` once it
  -- no longer drains its queue.
  pub record Loose (i : ℕ) (v : View P) : Type 0 where
    pub leases : Leases v
    pub others : (j : ℕ) → j ≢ i → Phased (v.lanes j)

  pub record Steady (v : View P) : Type 0 where
    pub leases : Leases v
    pub each : (j : ℕ) → Phased (v.lanes j)

  pub record Open (i : ℕ) (v : View P) : Type 0 where
    pub loose : Loose i v
    pub own : Phased (record (v.lanes i) { draining_queue = false })

  pub Steady-Loose : {v : View P} (i : ℕ) → Steady v → Loose i v
  Steady-Loose i s = record { leases = s.leases; others = λ j ne. s.each j }

  pub Loose-Steady : {v : View P} {i : ℕ} → Loose i v → Phased (v.lanes i) → Steady v
  Loose-Steady {v} {i} l ph = record {
    leases = l.leases;
    each = λ j. elim (Bool-cases (j == i)) [
      | inl e ↦ subst (λ k. Phased (v.lanes k)) (sym ((==_iff j i).0 e)) ph
      | inr e ↦ l.others j (λ same. clash ((==_iff j i).1 same) e)
    ];
  }
    where
      clash : {b : Bool} → b ≡ true → b ≡ false → ⊥
      clash h1 h2 = cc
