-- ===== src/Pipeline/Sending.antt =====
-- The pipelines lease and give back: an asynchronous start.
use pqproxy.Base.{
  ℕ, ◌+◌, ◌≤◌, ◌<◌, ◌≡◌, ◌≢◌, refl, sym, ap, subst, ◌∙◌, inl, inr, Bool, true, false, Bool-cases,
  if_cases, not, ◌||◌, List, [], ◌∷◌, ◌++◌, Option, none, some, Str, ltb, ◌==◌, length, length-set,
  ==_iff, get_or-set_self, length-append, arith,
}
use pqproxy.Pique.Wire.{Bind}
use pqproxy.StmtCache.{Cache}
use pqproxy.Identity.{Identity}
use pqproxy.Rewrite.{on_bind}
use pqproxy.Pool.{Conn, Config, Backends, Pool, no_conn, size, conn_at, with_conn, checkin}
use pqproxy.Pool.Checkout.{is_empty, checkout, checkin_at}
use pqproxy.Pool.Logins.{ConnOk}
use pqproxy.Pool.Conns.{Left, free_ok}
use pqproxy.Pool.Lease.{Inv, Kept, Leased, at_written}
use pqproxy.Pool.Search.{Outcome, checkout-Outcome}
use pqproxy.Pipeline.{
  Link, Pipes, PiqueApi, be_send_cap, followed, with_link, put_conn, collect, emptied, collected,
  begin_on, async_begin,
}

-- Only connection `i` differs, and once it is given back it is in order.
pub record OnlyAt (i : ℕ) (p q : Pool) : Type 0 where
  pub width : size q ≡ size p
  pub cursor : q.rr_cursor ≡ p.rr_cursor
  pub others : (j : ℕ) → j ≢ i → conn_at q j ≡ conn_at p j
  pub sound : ConnOk i (record (conn_at q i) { busy = false })

-- A write to the connection alone.
pub put-OnlyAt :
    {i : ℕ} {p q : Pool} (c : Conn)
    → i < size q
    → OnlyAt i p q
    → ConnOk i (record c { busy = false })
    → OnlyAt i p (with_conn q i c q.asked)
put-OnlyAt {i} {p} {q} c h o ok = record {
  width = length-set q.conns i c ∙ o.width;
  cursor = o.cursor;
  others = λ j ne.
      at_written (λ d. d ≡ conn_at p j) q.conns i j c h (λ s. absurd (ne s))
        (λ ne'. o.others j ne');
  sound =
      at_written (λ d. ConnOk i (record d { busy = false })) q.conns i i c h (λ s. ok)
        (λ ne. absurd (ne refl));
}

-- A leased connection that only the pipeline changed is given back: nothing else has changed.
pub given-Kept :
    {i : ℕ} {p q r : Pool}
    → Leased p q i
    → Inv q
    → OnlyAt i q r
    → Kept p (checkin_at r i) × Inv (checkin_at r i)
unfolding checkin_at checkin
given-Kept {i} {p} {q} {r} l v o =
    let free : Conn = record (conn_at r i) { busy = false } in
    let h : i < size r = omega (arith, l.within, l.width, o.width) in
    (
      record {
        width = length-set r.conns i free ∙ o.width ∙ l.width;
        each = λ j.
            at_written (Left (conn_at p j)) r.conns i j free h
              (λ e. record {
                leased =
                    λ b. absurd (busy_idle (subst (λ k. (conn_at p k).busy ≡ true) e b) l.was_idle);
                idle = λ b. refl;
              })
              (λ ne. subst (Left (conn_at p j)) (sym (o.others j ne)) (l.others j ne));
      },
      λ j lt.
          at_written (ConnOk j) r.conns i j free h (λ e. subst (λ k. ConnOk k free) (sym e) o.sound)
            (λ ne.
              subst (ConnOk j) (sym (o.others j ne))
                (v j (omega (arith, lt, o.width, length-set r.conns i free)))),
    )
  where
    busy_idle : {b : Bool} → b ≡ true → b ≡ false → ⊥
    busy_idle h1 h2 = cc

-- What an asynchronous start leaves: no lease more, or a lease more with output to send.
pub data Began {S : Type 0} (p : Pool) : Option ℕ × Pipes S → Type 0 where
  no_lease : {s : Pipes S} → Kept p s.pool → Inv s.pool → Began p (none, s)
  one_lease :
      {i : ℕ} {s : Pipes S}
      → Leased p s.pool i
      → Inv s.pool
      → (conn_at s.pool i).send_off ≡ 0
      → 0 < length (conn_at s.pool i).send_buf
      → length (conn_at s.pool i).send_buf ≤ be_send_cap
      → Began p (some i, s)

pub OnlyAt-refl : {i : ℕ} {p : Pool} → i < size p → Inv p → OnlyAt i p p
OnlyAt-refl {i} {p} h v = record {
  width = refl;
  cursor = refl;
  others = λ j ne. refl;
  sound = free_ok (conn_at p i) (v i h);
}

-- A lease lasts while only its pipeline changes the connection.
lasting :
    {i : ℕ} {p q r : Pool}
    → Leased p q i
    → Inv q
    → OnlyAt i q r
    → (conn_at r i).alive ≡ true
    → (conn_at r i).busy ≡ true
    → Leased p r i × Inv r
lasting {i} {p} {q} {r} l v o up taken = (
  record {
    within = l.within;
    width = o.width ∙ l.width;
    was_idle = l.was_idle;
    alive = up;
    leased = taken;
    others = λ j ne. subst (Left (conn_at p j)) (sym (o.others j ne)) (l.others j ne);
    cursor = o.cursor ∙ l.cursor;
  },
  λ j lt. elim (Bool-cases (j == i)) [
    | inl e ↦ subst (λ k. ConnOk k (conn_at r k)) (sym ((==_iff j i).0 e)) whole
    | inr e ↦
        let ne : j ≢ i = λ s. clash ((==_iff j i).1 s) e in
        subst (ConnOk j) (sym (o.others j ne)) (v j (omega (arith, lt, o.width)))
  ],
)
  where
    clash : {b : Bool} → b ≡ true → b ≡ false → ⊥
    clash h1 h2 = cc

    whole : ConnOk i (conn_at r i)
    whole = record {
      at = o.sound.at;
      lives = λ b. up;
      wired = o.sound.wired;
      named = o.sound.named;
    }

length-collect :
    (chunks : List Str) (buf : Str)
    → length buf ≤ be_send_cap
    → length (collect chunks buf).1 ≤ be_send_cap
unfolding collect
length-collect [] buf h = h
length-collect ([] ∷ chunks) buf h = h
length-collect ((b ∷ chunk) ∷ chunks) buf h =
    at (ltb be_send_cap (length buf + length (b ∷ chunk))) refl
      (λ fits. length-collect chunks (buf ++ b ∷ chunk) fits)
  where
    at :
        (full : Bool)
        → ltb be_send_cap (length buf + length (b ∷ chunk)) ≡ full
        → (length (buf ++ b ∷ chunk) ≤ be_send_cap
            → length (collect chunks (buf ++ b ∷ chunk)).1 ≤ be_send_cap)
        → length
            (elim full as (λ x. Bool × Str) [
              | true ↦ (false, buf)
              | false ↦ collect chunks (buf ++ b ∷ chunk)
            ]).1
          ≤ be_send_cap
    at true e next = h
    at false e next = next (ground (arith, length-append buf (b ∷ chunk)))

module _ {S : Type 0} (api : PiqueApi S) {p : Pool} where
  collected-Began :
      (s : Pipes S) (i : ℕ) {q : Pool} (r : Bool × Str)
      → Leased p q i
      → Inv q
      → OnlyAt i q s.pool
      → (conn_at s.pool i).alive ≡ true
      → (conn_at s.pool i).busy ≡ true
      → (conn_at s.pool i).send_off ≡ 0
      → length r.1 ≤ be_send_cap
      → Began p (collected api s i r)
  unfolding collected
  collected-Began s i {q} (fits, buf) l v o up taken off short =
      let c : Conn = record (conn_at s.pool i) { send_buf = buf } in
      let h : i < size s.pool = omega (arith, l.within, l.width, o.width) in
      let ok : ConnOk i (record c { busy = false }) = record {
        at = o.sound.at;
        lives = λ b. cc;
        wired = o.sound.wired;
        named = o.sound.named;
      } in
      let o' = put-OnlyAt c h o ok in
      let same : conn_at (with_conn s.pool i c s.pool.asked) i ≡ c =
        get_or-set_self s.pool.conns i c no_conn h in
      if_cases (Began p) (not fits || is_empty buf)
        (λ e. let (k, w) = given-Kept l v o' in no_lease k w)
        (λ e.
          let (l', v') =
            lasting l v o' (ap (λ (d : Conn). d.alive) same ∙ up)
              (ap (λ (d : Conn). d.busy) same ∙ taken) in
          one_lease l' v' (ap (λ (d : Conn). d.send_off) same ∙ off)
            (subst (λ (d : Conn). 0 < length d.send_buf) (sym same) (filled buf fits e))
            (subst (λ (d : Conn). length d.send_buf ≤ be_send_cap) (sym same) short))
    where
      filled : (b : Str) (f : Bool) → (not f || is_empty b) ≡ false → 0 < length b
      filled [] true e = cc
      filled [] false e = cc
      filled (x ∷ xs) f e = omega arith

  begin_on-Began :
      (s : Pipes S) (i : ℕ) (cache : Cache) (bind : Bind) (id : Identity)
      → Leased p s.pool i
      → Inv s.pool
      → Began p (begin_on api s i cache bind id)
  unfolding begin_on
  begin_on-Began s i cache bind id l v =
      let c = conn_at s.pool i in
      let h : i < size s.pool = omega (arith, l.within, l.width) in
      let before = (s.links i).context in
      let (bound, after) = on_bind api.wire before cache bind id in
      let link : Link S = record { context = after; pipe_st = api.init; skip_parse_bind = true } in
      let s' = with_link (put_conn s i (emptied c)) i link in
      let ok = free_ok c (v i h) in
      let o =
        put-OnlyAt (emptied c) h (OnlyAt-refl h v)
          (record { at = ok.at; lives = λ b. cc; wired = ok.wired; named = ok.named }) in
      let same : conn_at s'.pool i ≡ emptied c =
        get_or-set_self s.pool.conns i (emptied c) no_conn h in
      if_cases (Began p) (not bound) (λ e. let (k, w) = given-Kept l v o in no_lease k w)
        λ e.
          collected-Began s' i (collect (api.outputs before after) []) l v o
            (ap (λ (d : Conn). d.alive) same ∙ l.alive) (ap (λ (d : Conn). d.busy) same ∙ l.leased)
            (ap (λ (d : Conn). d.send_off) same)
            (length-collect (api.outputs before after) [] (omega arith))

module _ {S : Type 0} (api : PiqueApi S) where
  module _ (net : Backends) (cfg : Config) where
    -- On a pool in order, async_begin for a group of at most 127 bytes either gives no connection,
    -- and has lent none, whatever failed, or lends one idle connection that is alive, with 1 to
    -- 32768 bytes to send from the first on; the pool stays in order.
    pub async_begin-Began :
        (s : Pipes S) (cache : Cache) (bind : Bind) (id : Identity)
        → Inv s.pool
        → length id.group ≤ 127
        → Began s.pool (async_begin api net cfg s cache bind id)
    unfolding async_begin followed
    async_begin-Began s cache bind id v short =
        let r = checkout net cfg s.pool id.group in
        begun r.0 r.1 (checkout-Outcome net cfg id.group s.pool v short)
      where
        begun :
            (conn : Option ℕ) (q : Pool)
            → Outcome cfg s.pool id.group (conn, q)
            → Began s.pool (elim conn as (λ x. Option ℕ × Pipes S) [
              | none ↦ (none, followed s q)
              | some i ↦ begin_on api (followed s q) i cache bind id
            ])
        begun none q (k, w) = no_lease k w
        begun (some i) q (l, w, own) = begin_on-Began api (followed s q) i cache bind id l w
