-- ===== src/Pool/Owners.antt =====
-- Who holds which connection, over all sequences of calls: no connection is lent twice.
use pqproxy.Base.{
  ℕ, ◌≤◌, ◌<◌, ◌≡◌, refl, sym, ap, subst, inl, inr, ◌∙◌, Bool, true, false, Bool-cases, if_cases,
  List, [], ◌∷◌, none, some, Str, if◌then◌else◌, ◌==◌, ==_iff, length, arith,
}
use pqproxy.Base.Members.{contains, without, contains-without, NoDup, without-NoDup}
use pqproxy.Pool.{Conn, Config, Backends, Pool, size, conn_at}
use pqproxy.Pool.Checkout.{maintain, checkout, checkin_at, finish_at}
use pqproxy.Pool.Conns.{Left}
use pqproxy.Pool.Lease.{Inv, Kept, Leased, maintain-Kept}
use pqproxy.Pool.Search.{Outcome, checkout-Outcome}
use pqproxy.Pool.Release.{Freed, checkin_at-Freed, finish_at-Freed}

-- The pools that the calls reach from an idle one, with the connections that are lent out, latest
-- first. Only who holds a connection gives it back, and a group is shorter than 128 bytes.
pub data Reaches (net : Backends) (cfg : Config) (start : Pool) : Pool → List ℕ → Type 0 where
  starts : Reaches net cfg start start []
  lends :
      {p q : Pool} {held : List ℕ} {i : ℕ} (group : Str)
      → Reaches net cfg start p held
      → length group ≤ 127
      → checkout net cfg p group ≡ (some i, q)
      → Reaches net cfg start q (i ∷ held)
  refuses :
      {p q : Pool} {held : List ℕ} (group : Str)
      → Reaches net cfg start p held
      → length group ≤ 127
      → checkout net cfg p group ≡ (none, q)
      → Reaches net cfg start q held
  maintains :
      {p : Pool} {held : List ℕ}
      → Reaches net cfg start p held
      → Reaches net cfg start (maintain net cfg p).1 held
  checks_in :
      {p : Pool} {held : List ℕ} (i : ℕ)
      → Reaches net cfg start p held
      → contains i held ≡ true
      → Reaches net cfg start (checkin_at p i) (without i held)
  finishes :
      {p : Pool} {held : List ℕ} (i : ℕ) (failed : Bool)
      → Reaches net cfg start p held
      → contains i held ≡ true
      → Reaches net cfg start (finish_at net cfg p i failed) (without i held)

-- The flags say who is lent out, and nobody is lent out twice.
pub record Owned (start p : Pool) (held : List ℕ) : Type 0 where
  pub width : size p ≡ size start
  pub inv : Inv p
  pub distinct : NoDup held
  pub busy : (j : ℕ) → (conn_at p j).busy ≡ contains j held
  pub within : (j : ℕ) → contains j held ≡ true → j < size start

pub Left-busy : {c d : Conn} → Left c d → d.busy ≡ c.busy
Left-busy {c} {d} l = elim (Bool-cases c.busy) [
  | inl e ↦ ap (λ (x : Conn). x.busy) (l.leased e)
  | inr e ↦ l.idle e ∙ sym e
]

module _ {start p q : Pool} {held : List ℕ} (o : Owned start p held) where
  Owned-Kept : Kept p q → Inv q → Owned start q held
  Owned-Kept k v = record {
    width = k.width ∙ o.width;
    inv = v;
    distinct = o.distinct;
    busy = λ j. Left-busy (k.each j) ∙ o.busy j;
    within = o.within;
  }

  Owned-Leased : {i : ℕ} → Leased p q i → Inv q → Owned start q (i ∷ held)
  unfolding contains
  Owned-Leased {i} l v = record {
    width = l.width ∙ o.width;
    inv = v;
    distinct = (sym (o.busy i) ∙ l.was_idle, o.distinct);
    busy = λ j.
        if_cases (λ b. (conn_at q j).busy ≡ b) (i == j)
          (λ e. subst (λ k. (conn_at q k).busy ≡ true) ((==_iff i j).0 e) l.leased)
          (λ e. Left-busy (l.others j (λ s. ground (arith, e, s))) ∙ o.busy j);
    within = λ j h. in_pool j h;
  }
    where
      in_pool : (j : ℕ) → (if i == j then true else contains j held) ≡ true → j < size start
      in_pool j h = elim (Bool-cases (i == j)) [
        | inl e ↦ omega (arith, (==_iff i j).0 e, l.within, o.width)
        | inr e ↦ o.within j (rw e at h)
      ]

  Owned-Freed : {i : ℕ} → Freed p q i → Owned start q (without i held)
  Owned-Freed {i} f = record {
    width = f.width ∙ o.width;
    inv = f.inv;
    distinct = without-NoDup i held o.distinct;
    busy = λ j.
        if_cases (λ b. (conn_at q j).busy ≡ b) (j == i)
          (λ e. subst (λ k. (conn_at q k).busy ≡ false) (sym ((==_iff j i).0 e)) f.idle)
          (λ e. ap (λ (c : Conn). c.busy) (f.others j (λ s. ground (arith, e, s))) ∙ o.busy j)
        ∙ sym (contains-without j i held);
    within = λ j h. o.within j (kept_in (j == i) (contains-without j i held) h);
  }
    where
      kept_in :
          {a : Bool} (b : Bool) {c : Bool} → a ≡ (if b then false else c) → a ≡ true → c ≡ true
      kept_in true e h = cc
      kept_in false e h = sym e ∙ h

-- From a pool in order whose connections are all idle, after any sequence of checkouts,
-- maintenance, checkins and finished pipelines in which only holders give connections back, no
-- connection is lent twice, the busy flags say exactly which connections are lent, and the pool is
-- in order.
pub Reaches-Owned :
    {net : Backends} {cfg : Config} {start p : Pool} {held : List ℕ}
    → Inv start
    → ((j : ℕ) → (conn_at start j).busy ≡ false)
    → Reaches net cfg start p held
    → Owned start p held
unfolding contains
Reaches-Owned v idle starts = record {
  width = refl;
  inv = v;
  distinct = tt;
  busy = idle;
  within = λ j h. cc;
}
Reaches-Owned {net} {cfg} v idle (lends {p} {q} {i = i} group r short e) =
    let o = Reaches-Owned v idle r in
    let (l, v', own) =
      subst (Outcome cfg p group) e (checkout-Outcome net cfg group p o.inv short) in
    Owned-Leased o l v'
Reaches-Owned {net} {cfg} v idle (refuses {p} {q} group r short e) =
    let o = Reaches-Owned v idle r in
    let (k, v') = subst (Outcome cfg p group) e (checkout-Outcome net cfg group p o.inv short) in
    Owned-Kept o k v'
Reaches-Owned {net} {cfg} v idle (maintains {p} r) =
    let o = Reaches-Owned v idle r in
    let (k, v') = maintain-Kept net cfg p o.inv in Owned-Kept o k v'
Reaches-Owned v idle (checks_in {p} i r h) =
    let o = Reaches-Owned v idle r in
    Owned-Freed o (checkin_at-Freed p i o.inv (omega (arith, o.width, o.within i h)))
Reaches-Owned {net} {cfg} v idle (finishes {p} i failed r h) =
    let o = Reaches-Owned v idle r in
    Owned-Freed o (finish_at-Freed net cfg p i failed o.inv (omega (arith, o.width, o.within i h)))
