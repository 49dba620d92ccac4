-- ===== src/Pipeline/Served.antt =====
-- The pool of src/backend_pool.c as the event loop uses it, and that it is what the loop relies on.
use pqproxy.Base.{
  ℕ, zero, suc, ◌+◌, ◌<◌, ◌≡◌, refl, sym, ap, ◌∙◌, true, true_not_false, if_cases, List, [], ◌∷◌,
  Option, Str, ltb, get_or, length, arith,
}
use pqproxy.Recv.{Ending, async_on_recv}
use pqproxy.Pool.{Conn, Config, Backends, Pool, no_conn, size, conn_at, with_conn}
use pqproxy.Pool.Checkout.{maintain, finish_at}
use pqproxy.Pool.Logins.{ConnOk}
use pqproxy.Pool.Lease.{Inv, at_written, written-Inv, maintain-Kept}
use pqproxy.Pool.Release.{finish_at-Freed}
use pqproxy.Pool.Owners.{Left-busy}
use pqproxy.Pipeline.{
  Pipes, PiqueApi, Answers, followed, with_link, put_conn, async_send_ptr, async_send_advance,
  async_begin, exec_bind, exec_query,
}
use pqproxy.Pipeline.Sending.{Began, no_lease, one_lease, async_begin-Began}
use pqproxy.Pipeline.Blocking.{exec_bind-Kept, exec_query-Kept}
use pqproxy.Loop.{Backend, Begun, no_lease, one_lease, BackendLaws}

-- sizeof (c->be_resp)
abbrev pub be_resp_cap : ℕ
be_resp_cap = 16384

module _ {S : Type 0} (api : PiqueApi S) (net : Backends) (cfg : Config)
    (answers : Pipes S → ℕ → Answers) where
  -- pqproxy_backend_async_on_recv on connection `i`, with the fields of the connection.
  unfoldable pub recv_at : Pipes S → ℕ → Str → Str → Ending × Str × Pipes S
  recv_at s i bytes out =
      let c = conn_at s.pool i in
      let l = s.links i in
      let (ending, r) =
        async_on_recv api.pipeline l.skip_parse_bind be_resp_cap
          (record { recv_acc = c.recv_acc; pipe_st = l.pipe_st; out = out }) bytes in
      (
        ending,
        r.out,
        with_link (put_conn s i (record c { recv_acc = r.recv_acc })) i
            (record l { pipe_st = r.pipe_st }),
      )

  abbrev pub backend : Backend (Pipes S)
  backend = record {
    begin = async_begin api net cfg;
    finish = λ s i failed. followed s (finish_at net cfg s.pool i failed);
    send_ptr = λ s i. async_send_ptr (conn_at s.pool i);
    advance = λ s i n. put_conn s i (async_send_advance (conn_at s.pool i) n);
    on_recv = recv_at;
    saw_error = λ s i. api.saw_error (s.links i).pipe_st;
    exec_bind = λ s cache bind id. exec_bind api net cfg s (answers s) cache bind id be_resp_cap;
    exec_query = λ s group sql. exec_query api net cfg s (answers s) group sql be_resp_cap;
    maintain = λ s. followed s (maintain net cfg s.pool).1;
    leased = λ s k. (conn_at s.pool k).busy;
  }

pub within : (p : Pool) (i : ℕ) → (conn_at p i).busy ≡ true → i < size p
within p i h = at p.conns i h
  where
    at : (cs : List Conn) (i : ℕ) → (get_or cs i no_conn).busy ≡ true → i < length cs
    at [] i h = absurd (true_not_false h refl)
    at (c ∷ cs) zero h = omega arith
    at (c ∷ cs) (suc i) h = omega (arith, at cs i h)

-- A write to a leased connection that is still leased, alive and in its slot.
pub touched :
    (p : Pool) (i : ℕ) (c : Conn)
    → Inv p
    → (conn_at p i).busy ≡ true
    → c.busy ≡ true
    → ConnOk i c
    → Inv (with_conn p i c p.asked)
      × ((j : ℕ) → (conn_at (with_conn p i c p.asked) j).busy ≡ (conn_at p j).busy)
touched p i c v h b ok = (
  written-Inv p i (within p i h) c p.asked v ok,
  λ j.
      at_written (λ (d : Conn). d.busy ≡ (conn_at p j).busy) p.conns i j c (within p i h)
        (λ e. b ∙ sym h ∙ ap (λ k. (conn_at p k).busy) (sym e)) (λ ne. refl),
)

module _ {S : Type 0} (api : PiqueApi S) (net : Backends) (cfg : Config)
    (answers : Pipes S → ℕ → Answers) where
  pub begun :
      {s : Pipes S} {r : Option ℕ × Pipes S}
      → Began s.pool r
      → Begun (backend api net cfg answers) (λ t. Inv t.pool) s r
  begun (no_lease k v) = no_lease v (λ j. Left-busy (k.each j))
  begun (one_lease l v off some_bytes fits) =
      one_lease v l.was_idle l.leased (λ j ne. Left-busy (l.others j ne))

  -- x
  unfoldable pub backend_laws : BackendLaws (backend api net cfg answers)
  unfolding followed recv_at async_send_advance
  backend_laws = record {
    Ok = λ s. Inv s.pool;
    begins =
        λ s cache bind id v short. begun (async_begin-Began api net cfg s cache bind id v short);
    finishes = λ s i failed v h.
        let f = finish_at-Freed net cfg s.pool i failed v (within s.pool i h) in
        (f.inv, f.idle, λ j ne. ap (λ (c : Conn). c.busy) (f.others j ne));
    advances = λ s i n v h.
        let c = conn_at s.pool i in
        let ok = v i (within s.pool i h) in
        touched s.pool i (async_send_advance c n) v h
          (if_cases (λ (d : Conn). d.busy ≡ true) (ltb (length c.send_buf) (c.send_off + n))
            (λ e. h) (λ e. h))
          (if_cases (ConnOk i) (ltb (length c.send_buf) (c.send_off + n))
            (λ e. record { at = ok.at; lives = ok.lives; wired = ok.wired; named = ok.named })
            (λ e. record { at = ok.at; lives = ok.lives; wired = ok.wired; named = ok.named }));
    receives = λ s i bytes out v h.
        let ok = v i (within s.pool i h) in
        touched s.pool i _ v h h
          (record { at = ok.at; lives = ok.lives; wired = ok.wired; named = ok.named });
    binds = λ s cache bind id v short.
        let (k, w) = exec_bind-Kept api net cfg s (answers s) cache bind id be_resp_cap v short in
        (w, λ j. Left-busy (k.each j));
    queries = λ s group sql v short.
        let (k, w) = exec_query-Kept api net cfg s (answers s) group sql be_resp_cap v short in
        (w, λ j. Left-busy (k.each j));
    maintains =
        λ s v. let (k, w) = maintain-Kept net cfg s.pool v in (w, λ j. Left-busy (k.each j));
  }
