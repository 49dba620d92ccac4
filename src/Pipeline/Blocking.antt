-- ===== src/Pipeline/Blocking.antt =====
-- The blocking pipelines lease and give back: exec_bind and exec_query.
use pqproxy.Base.{
  ℕ, ◌≤◌, ◌<◌, Bool, true, false, if_cases, not, ◌||◌, List, [], Option, none, some, Str, length,
  arith,
}
use pqproxy.Pique.Wire.{Bind, Wire, call, send_query}
use pqproxy.StmtCache.{Cache}
use pqproxy.Identity.{Identity}
use pqproxy.Rewrite.{on_bind}
use pqproxy.Pool.{Config, Backends, Pool, size, conn_at}
use pqproxy.Pool.Checkout.{checkout}
use pqproxy.Pool.Lease.{Inv, Kept, Leased}
use pqproxy.Pool.Search.{Outcome, checkout-Outcome}
use pqproxy.Pipeline.{
  Pipes, PiqueApi, Answers, Replies, lost, cut, ended, followed, with_link, write_output,
  read_replies, replied, flush_pipeline_ex, exec_on, exec_bind, exec_query,
}
use pqproxy.Pipeline.Sending.{OnlyAt, put-OnlyAt, OnlyAt-refl, given-Kept}

module _ {S : Type 0} (api : PiqueApi S) where
  replied-OnlyAt :
      {i : ℕ} {q : Pool} (s : Pipes S) (r : Replies S)
      → i < size s.pool
      → OnlyAt i q s.pool
      → OnlyAt i q (replied api s i r).1.pool
  unfolding replied
  replied-OnlyAt {i} s lost h o =
      put-OnlyAt (record (conn_at s.pool i) { alive = false }) h o
        (record { at = o.sound.at; lives = λ b. cc; wired = λ b. cc; named = o.sound.named })
  replied-OnlyAt s cut h o = o
  replied-OnlyAt s (ended st out) h o = o

  flush-OnlyAt :
      {i : ℕ} {q : Pool} (s : Pipes S) (chunks : List Str) (answers : Answers) (cap : ℕ)
      (skip : Bool)
      → i < size s.pool
      → OnlyAt i q s.pool
      → OnlyAt i q (flush_pipeline_ex api s i chunks answers cap skip).1.pool
  unfolding flush_pipeline_ex
  flush-OnlyAt {i} {q} s chunks answers cap skip h o =
      let c = conn_at s.pool i in
      let s' : Pipes S = with_link s i (record (s.links i) { pipe_st = api.init }) in
      if_cases (λ (r : Option Str × Pipes S). OnlyAt i q r.1.pool) (not c.alive || not c.wire)
        (λ e. o)
        λ e.
          if_cases (λ (r : Option Str × Pipes S). OnlyAt i q r.1.pool)
            (not (write_output chunks answers.writes))
            (λ w.
              put-OnlyAt (record c { alive = false }) h o
                (record {
                  at = o.sound.at;
                  lives = λ b. cc;
                  wired = λ b. cc;
                  named = o.sound.named;
                }))
            λ w. replied-OnlyAt s' (read_replies api skip cap 256 answers.replies api.init []) h o

  exec_on-Kept :
      {p : Pool} (s : Pipes S) (i : ℕ) (queued : Bool × Wire) (answers : Answers) (cap : ℕ)
      (skip : Bool)
      → Leased p s.pool i
      → Inv s.pool
      → Kept p (exec_on api s i queued answers cap skip).1.pool
        × Inv (exec_on api s i queued answers cap skip).1.pool
  unfolding exec_on
  exec_on-Kept {p} s i (queued, after) answers cap skip l v =
      let h : i < size s.pool = omega (arith, l.within, l.width) in
      let s' : Pipes S = with_link s i (record (s.links i) { context = after }) in
      let o =
        flush-OnlyAt s' (api.outputs (s.links i).context after) answers cap skip h
          (OnlyAt-refl h v) in
      if_cases (λ (r : Option Str × Pipes S). Kept p r.1.pool × Inv r.1.pool) (not queued)
        (λ e. given-Kept l v (OnlyAt-refl h v)) (λ e. given-Kept l v o)

  module _ (net : Backends) (cfg : Config) where
    -- On a pool in order and for a group of at most 127 bytes, a blocking exec_bind leaves every
    -- lent connection as it was and every idle one idle, however it ends; the pool stays in order.
    pub exec_bind-Kept :
        (s : Pipes S) (answers : ℕ → Answers) (cache : Cache) (bind : Bind) (id : Identity)
        (cap : ℕ)
        → Inv s.pool
        → length id.group ≤ 127
        → Kept s.pool (exec_bind api net cfg s answers cache bind id cap).1.pool
          × Inv (exec_bind api net cfg s answers cache bind id cap).1.pool
    unfolding exec_bind followed
    exec_bind-Kept s answers cache bind id cap v short =
        let r = checkout net cfg s.pool id.group in
        run r.0 r.1 (checkout-Outcome net cfg id.group s.pool v short)
      where
        run :
            (conn : Option ℕ) (q : Pool)
            → Outcome cfg s.pool id.group (conn, q)
            → (let s' = followed s q in
                let t = elim conn as (λ x. Option Str × Pipes S) [
                  | none ↦ (none, s')
                  | some i ↦
                      let link = record (s'.links i) { pipe_st = api.init } in
                      let queued = on_bind api.wire link.context cache bind id in
                      exec_on api (with_link s' i link) i queued (answers i) cap true
                ] in
                Kept s.pool t.1.pool × Inv t.1.pool)
        run none q (k, w) = (k, w)
        run (some i) q (l, w, own) =
            let link = record ((followed s q).links i) { pipe_st = api.init } in
            exec_on-Kept (with_link (followed s q) i link) i
              (on_bind api.wire link.context cache bind id) (answers i) cap true l w

    pub exec_query-Kept :
        (s : Pipes S) (answers : ℕ → Answers) (group sql : Str) (cap : ℕ)
        → Inv s.pool
        → length group ≤ 127
        → Kept s.pool (exec_query api net cfg s answers group sql cap).1.pool
          × Inv (exec_query api net cfg s answers group sql cap).1.pool
    unfolding exec_query followed
    exec_query-Kept s answers group sql cap v short =
        let r = checkout net cfg s.pool group in
        run r.0 r.1 (checkout-Outcome net cfg group s.pool v short)
      where
        run :
            (conn : Option ℕ) (q : Pool)
            → Outcome cfg s.pool group (conn, q)
            → (let s' = followed s q in
                let t = elim conn as (λ x. Option Str × Pipes S) [
                  | none ↦ (none, s')
                  | some i ↦
                      let queued = call api.wire (s'.links i).context (send_query sql) in
                      exec_on api s' i queued (answers i) cap false
                ] in
                Kept s.pool t.1.pool × Inv t.1.pool)
        run none q (k, w) = (k, w)
        run (some i) q (l, w, own) =
            exec_on-Kept (followed s q) i
              (call api.wire ((followed s q).links i).context (send_query sql)) (answers i) cap
              false l w
