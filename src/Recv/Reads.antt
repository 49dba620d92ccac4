-- ===== src/Recv/Reads.antt =====
-- pqproxy_backend_async_on_recv over several reads.
use mathlib.Core.List.{append_assoc, append-nil}
use pqproxy.Base.{
  ℕ, ◌+◌, ◌≤◌, ◌≡◌, refl, sym, ap, subst, ◌∙◌, Bool, if_false, List, [], ◌∷◌, ◌++◌, Str, ltb,
  length, length-append, arith,
}
use pqproxy.Recv.{
  PipelineApi, Recv, be_recv_cap, Ending, failed, waits, completes, Scan, scan_loop, kept,
  async_on_recv,
}
use pqproxy.Recv.Split.{After, scan_loop-append}

module _ {S : Type 0} (api : PipelineApi S) (skip : Bool) (out_cap : ℕ) where
  -- The same reply, status and bytes for the client.
  abbrev pub SameReply : Ending × Recv S → Ending × Recv S → Type 0
  SameReply r s = (r.0 ≡ s.0) × (r.1.pipe_st ≡ s.1.pipe_st) × (r.1.out ≡ s.1.out)

  -- The reads of a pipeline, until one fails or completes it.
  pub receive : Recv S → List Str → Ending × Recv S
  receive c [] = (waits, c)
  receive c (bytes ∷ reads) =
      let r = async_on_recv api skip out_cap c bytes in
      elim r.0 [ failed ↦ (failed, r.1) | waits ↦ receive r.1 reads | completes ↦ (completes, r.1) ]

  abbrev pub join : List Str → Str
  join [] = []
  join (bytes ∷ reads) = bytes ++ join reads

  -- What a first read `r` leaves to a second one, if `s` reads both at once.
  abbrev Continues : ℕ → Ending → Recv S → Str → Ending × Recv S → Type 0
  Continues n failed c b s = SameReply s (failed, c)
  Continues n waits c b s =
      (length c.recv_acc ≤ n) × SameReply s (async_on_recv api skip out_cap c b)
  Continues n completes c b s = SameReply s (completes, c)

  scan_all : Recv S → Str → Scan S
  scan_all c bytes =
      scan_loop api skip out_cap (length (c.recv_acc ++ bytes)) (c.recv_acc ++ bytes) c.pipe_st
        c.out

  read_fits :
      (c : Recv S) (bytes : Str)
      → length c.recv_acc + length bytes ≤ be_recv_cap
      → async_on_recv api skip out_cap c bytes
        ≡ kept api skip out_cap (scan_all c bytes).ending (c.recv_acc ++ bytes) (scan_all c bytes)
  unfolding async_on_recv scan_all
  read_fits c bytes h =
      if_false {b = ltb be_recv_cap (length c.recv_acc + length bytes)} _ (ground arith)

  -- What is kept of the bytes is not part of the reply.
  kept-SameReply :
      (e : Ending) (acc acc' : Str) (r : Scan S)
      → SameReply (kept api skip out_cap e acc r) (kept api skip out_cap e acc' r)
  unfolding kept
  kept-SameReply failed acc acc' r = (refl, refl, refl)
  kept-SameReply waits acc acc' r = (refl, refl, refl)
  kept-SameReply completes acc acc' r = (refl, refl, refl)

  kept-Continues :
      (e : Ending) (r : Scan S) (n : ℕ) (acc acc' b : Str) (s : Scan S)
      → r.ending ≡ e
      → n + length b ≤ be_recv_cap
      → After api skip out_cap e r n b s
      → Continues n
          (kept api skip out_cap e acc r).0
          (kept api skip out_cap e acc r).1
          b
          (kept api skip out_cap s.ending acc' s)
  unfolding kept scan_all
  kept-Continues failed r n acc acc' b s same h after =
      subst
        (λ (t : Scan S).
          SameReply (kept api skip out_cap t.ending acc' t)
            (failed, record { recv_acc = acc; pipe_st = r.pipe_st; out = r.out }))
        (sym after)
        (subst
          (λ e.
            SameReply (kept api skip out_cap e acc' (record r { rest = r.rest ++ b }))
              (failed, record { recv_acc = acc; pipe_st = r.pipe_st; out = r.out }))
          (sym same) (refl, refl, refl))
  kept-Continues waits r n acc acc' b s same h (le, p) =
      let c : Recv S = record { recv_acc = r.rest; pipe_st = r.pipe_st; out = r.out } in
      (
        le,
        subst (SameReply (kept api skip out_cap s.ending acc' s))
            (sym (read_fits c b (omega arith)))
            (subst
              (λ (t : Scan S).
                SameReply (kept api skip out_cap s.ending acc' s)
                  (kept api skip out_cap t.ending (r.rest ++ b) t))
              p (kept-SameReply s.ending acc' (r.rest ++ b) s)),
      )
  kept-Continues completes r n acc acc' b s same h after =
      subst
        (λ (t : Scan S).
          SameReply (kept api skip out_cap t.ending acc' t)
            (completes, record { recv_acc = r.rest; pipe_st = r.pipe_st; out = r.out }))
        (sym after)
        (subst
          (λ e.
            SameReply (kept api skip out_cap e acc' (record r { rest = r.rest ++ b }))
              (completes, record { recv_acc = r.rest; pipe_st = r.pipe_st; out = r.out }))
          (sym same) (refl, refl, refl))

  on_recv-append :
      (c : Recv S) (a b : Str)
      → length c.recv_acc + length a + length b ≤ be_recv_cap
      → Continues
          (length c.recv_acc + length a)
          (async_on_recv api skip out_cap c a).0
          (async_on_recv api skip out_cap c a).1
          b
          (async_on_recv api skip out_cap c (a ++ b))
  unfolding scan_all
  on_recv-append c a b h =
      let n = length c.recv_acc + length a in
      let r = scan_all c a in
      let s = scan_all c (a ++ b) in
      let split =
        scan_loop-append api skip out_cap (length (c.recv_acc ++ a))
          (length (c.recv_acc ++ (a ++ b))) (c.recv_acc ++ a) b c.pipe_st c.out (omega arith)
          (omega (arith, ap length (append_assoc c.recv_acc a b))) in
      let after : After api skip out_cap r.ending r n b s =
        subst (λ m. After api skip out_cap r.ending r m b s) (length-append c.recv_acc a)
          (subst
            (λ t.
              After api skip out_cap r.ending r (length (c.recv_acc ++ a)) b
                (scan_loop api skip out_cap (length (c.recv_acc ++ (a ++ b))) t c.pipe_st c.out))
            (append_assoc c.recv_acc a b) split) in
      subst
        (λ (q : Ending × Recv S). Continues n q.0 q.1 b (async_on_recv api skip out_cap c (a ++ b)))
        (sym (read_fits c a (omega arith)))
        (subst
          (Continues n (kept api skip out_cap r.ending (c.recv_acc ++ a) r).0
            (kept api skip out_cap r.ending (c.recv_acc ++ a) r).1 b)
          (sym (read_fits c (a ++ b) (omega (arith, length-append a b))))
          (kept-Continues r.ending r n (c.recv_acc ++ a) (c.recv_acc ++ (a ++ b)) b s refl
            (omega arith) after))

  -- What the reads give after the first of them gave `e` and `c`.
  after_first : Ending → Recv S → List Str → Ending × Recv S
  after_first failed c reads = (failed, c)
  after_first waits c reads = receive c reads
  after_first completes c reads = (completes, c)

  first_read :
      (c : Recv S) (bytes : Str) (reads : List Str)
      → receive c (bytes ∷ reads)
        ≡ after_first
            (async_on_recv api skip out_cap c bytes).0
            (async_on_recv api skip out_cap c bytes).1
            reads
  unfolding receive after_first
  first_read c bytes reads =
      go (async_on_recv api skip out_cap c bytes).0 (async_on_recv api skip out_cap c bytes).1
    where
      go :
          (e : Ending) (d : Recv S)
          → ◌≡◌ {A = Ending × Recv S}
              (elim e [
                | failed ↦ (failed, d)
                | waits ↦ receive d reads
                | completes ↦ (completes, d)
              ])
              (after_first e d reads)
      go failed d = refl
      go waits d = refl
      go completes d = refl

  last_read : (e : Ending) (c : Recv S) → after_first e c [] ≡ (e, c)
  unfolding after_first receive
  last_read failed c = refl
  last_read waits c = refl
  last_read completes c = refl

  -- The reads after the first one, given what they do if it waits.
  more_reads :
      (n : ℕ) (e : Ending) (c : Recv S) (b : Str) (reads : List Str) (s : Ending × Recv S)
      → Continues n e c b s
      → (length c.recv_acc ≤ n → SameReply (async_on_recv api skip out_cap c b) (receive c reads))
      → SameReply s (after_first e c reads)
  unfolding after_first
  more_reads n failed c b reads s same next = same
  more_reads n waits c b reads s (le, (e, st, out)) next =
      let (e', st', out') = next le in (e ∙ e', st ∙ st', out ∙ out')
  more_reads n completes c b reads s same next = same

  -- For bytes that fit the receive buffer, one read of all of them gives the same reply, pipeline
  -- status and bytes for the client as any split of them into reads that stops at the first read
  -- that fails or completes the pipeline.
  pub receive-join :
      (c : Recv S) (bytes : Str) (reads : List Str)
      → length c.recv_acc + length (join (bytes ∷ reads)) ≤ be_recv_cap
      → SameReply
          (async_on_recv api skip out_cap c (join (bytes ∷ reads)))
          (receive c (bytes ∷ reads))
  receive-join c bytes [] h =
      let r = async_on_recv api skip out_cap c bytes in
      subst (λ (t : Str). SameReply (async_on_recv api skip out_cap c t) (receive c (bytes ∷ [])))
        (sym (append-nil bytes))
        (subst (SameReply r) (sym (first_read c bytes [] ∙ last_read r.0 r.1)) (refl, refl, refl))
  receive-join c bytes (b ∷ reads) h =
      let r = async_on_recv api skip out_cap c bytes in
      let rest = join (b ∷ reads) in
      let s = async_on_recv api skip out_cap c (bytes ++ rest) in
      let fits : length c.recv_acc + length bytes + length rest ≤ be_recv_cap =
        omega (arith, h, length-append bytes rest) in
      subst (SameReply s) (sym (first_read c bytes (b ∷ reads))) (
        more_reads (length c.recv_acc + length bytes) r.0 r.1 rest (b ∷ reads) s
          (on_recv-append c bytes rest fits)
          (λ le. receive-join r.1 b reads (omega (arith, le, fits))))
