-- ===== src/Pipeline.antt =====
-- src/backend_pool.c, a pipeline on a leased connection: async_begin and the bytes to send, and the
-- blocking exec_bind and exec_query. The contexts of pique, the sockets and the backends are
-- parameters.
pub mod Sending
pub mod Blocking
pub mod Served
use pqproxy.Base.{
  ℕ, zero, suc, ◌+◌, ◌-◌, Bool, true, false, not, ◌||◌, List, [], ◌∷◌, ◌++◌, Option, none, some,
  Str, ltb, leb, ◌==◌, if◌then◌else◌, get_or, length, drop,
}
use pqproxy.Pique.Wire.{Bind, Wire, WireApi, call, send_query}
use pqproxy.StmtCache.{Cache}
use pqproxy.Identity.{Identity}
use pqproxy.Rewrite.{on_bind}
use pqproxy.Recv.{PipelineApi}
use pqproxy.Pool.{Conn, Config, Backends, Request, logs_in, probes, Pool, conn_at, with_conn}
use pqproxy.Pool.Checkout.{is_empty, checkout, checkin_at}

-- The fields `wire`, `pipe_st` and `skip_parse_bind` of a connection.
pub record Link (S : Type 0) : Type 0 where
  pub context : Wire
  pub pipe_st : S
  pub skip_parse_bind : Bool

-- A pool with the links of its connections.
pub record Pipes (S : Type 0) : Type 0 where
  pub pool : Pool
  pub links : ℕ → Link S

-- pique: the messages, the status of a pipeline and its first value, and what pqwire_get_output gives,
-- call after call, for the messages queued from one history of a context to a later one.
pub record PiqueApi (S : Type 0) : Type 0 where
  pub wire : WireApi
  pub pipeline : PipelineApi S
  pub init : S
  pub saw_error : S → Bool
  pub outputs : Wire → Wire → List Str

-- The sockets of a blocking pipeline: whether each write_all returned 0, and what each read_msg read.
pub record Answers : Type 0 where
  pub writes : List Bool
  pub replies : List (Option Str)

abbrev pub be_send_cap : ℕ
be_send_cap = 32768

-- How often a connection was logged in.
unfoldable pub logins : ℕ → List Request → ℕ
logins i [] = 0
logins i (logs_in j user ∷ asked) = let n = logins i asked in if j == i then suc n else n
logins i (probes j ∷ asked) = logins i asked

-- The pool has made requests: a login has a new context.
unfoldable pub followed : {S : Type 0} → Pipes S → Pool → Pipes S
unfolding logins
followed s p = record {
  pool = p;
  links = λ i.
      if logins i p.asked == logins i s.pool.asked
      then s.links i
      else record (s.links i) { context = [] };
}

abbrev pub with_link : {S : Type 0} → Pipes S → ℕ → Link S → Pipes S
with_link s i l = record s { links = λ j. if j == i then l else s.links j }

abbrev pub put_conn : {S : Type 0} → Pipes S → ℕ → Conn → Pipes S
put_conn s i c = record s { pool = with_conn s.pool i c s.pool.asked }

abbrev pub give_back : {S : Type 0} → Pipes S → ℕ → Pipes S
give_back s i = record s { pool = checkin_at s.pool i }

-- The loop that moves output to send_buf: whether all of it found room, and the buffer.
unfoldable pub collect : List Str → Str → Bool × Str
collect [] buf = (true, buf)
collect ([] ∷ chunks) buf = (true, buf)
collect ((b ∷ chunk) ∷ chunks) buf = elim (ltb be_send_cap (length buf + length (b ∷ chunk))) [
  | true ↦ (false, buf)
  | false ↦ collect chunks (buf ++ b ∷ chunk)
]

-- `send_len = send_off = 0; recv_acc_len = 0`
abbrev pub emptied : Conn → Conn
emptied c = record c { send_buf = []; send_off = 0; recv_acc = [] }

-- pqproxy_backend_async_send_pending, and pqproxy_backend_async_send_ptr: the bytes from send_off on.
unfoldable pub async_send_pending : Conn → ℕ
async_send_pending c =
    if leb (length c.send_buf) c.send_off then 0 else length c.send_buf - c.send_off

unfoldable pub async_send_ptr : Conn → Str
async_send_ptr c = if leb (length c.send_buf) c.send_off then [] else drop c.send_off c.send_buf

unfoldable pub async_send_advance : Conn → ℕ → Conn
async_send_advance c n =
    if ltb (length c.send_buf) (c.send_off + n)
    then record c { send_off = length c.send_buf }
    else record c { send_off = c.send_off + n }

-- The loop that writes all output.
unfoldable pub write_output : List Str → List Bool → Bool
write_output [] writes = true
write_output ([] ∷ chunks) writes = true
write_output ((b ∷ chunk) ∷ chunks) [] = false
write_output ((b ∷ chunk) ∷ chunks) (false ∷ writes) = false
write_output ((b ∷ chunk) ∷ chunks) (true ∷ writes) = write_output chunks writes

-- How the reading loop of flush_pipeline_ex ends: without a message, without room, or in the end.
pub data Replies (S : Type 0) : Type 0 where
  lost cut : Replies S
  ended : S → Str → Replies S

module _ {S : Type 0} (api : PiqueApi S) where
  -- async_begin after its output was moved: without any, the connection is given back.
  unfoldable pub collected : Pipes S → ℕ → Bool × Str → Option ℕ × Pipes S
  collected s i (fits, buf) =
      let s' = put_conn s i (record (conn_at s.pool i) { send_buf = buf }) in
      if not fits || is_empty buf then (none, give_back s' i) else (some i, s')

  -- async_begin after the checkout.
  unfoldable pub begin_on : Pipes S → ℕ → Cache → Bind → Identity → Option ℕ × Pipes S
  unfolding collected collect
  begin_on s i cache bind id =
      let before = (s.links i).context in
      let (bound, after) = on_bind api.wire before cache bind id in
      let link : Link S = record { context = after; pipe_st = api.init; skip_parse_bind = true } in
      let s' = with_link (put_conn s i (emptied (conn_at s.pool i))) i link in
      if not bound
      then (none, give_back s' i)
      else collected s' i (collect (api.outputs before after) [])

  -- The loop of flush_pipeline_ex, for at most `n` rounds.
  unfoldable pub read_replies : Bool → ℕ → ℕ → List (Option Str) → S → Str → Replies S
  read_replies skip cap zero replies st out = ended st out
  read_replies skip cap (suc n) [] st out = if api.pipeline.complete st then ended st out else lost
  read_replies skip cap (suc n) (none ∷ replies) st out =
      if api.pipeline.complete st then ended st out else lost
  read_replies skip cap (suc n) (some msg ∷ replies) st out = elim (api.pipeline.complete st) [
    | true ↦ ended st out
    | false ↦ elim (api.pipeline.feed st msg).0 [
      | false ↦ lost
      | true ↦ elim (api.pipeline.filtered (get_or msg 0 0) skip) [
        | true ↦ read_replies skip cap n replies (api.pipeline.feed st msg).1 out
        | false ↦ elim (ltb cap (length out + length msg)) [
          | true ↦ cut
          | false ↦ read_replies skip cap n replies (api.pipeline.feed st msg).1 (out ++ msg)
        ]
      ]
    ]
  ]

  -- The end of flush_pipeline_ex: the bytes for the client unless it returns -1.
  unfoldable pub replied : Pipes S → ℕ → Replies S → Option Str × Pipes S
  replied s i lost = (none, put_conn s i (record (conn_at s.pool i) { alive = false }))
  replied s i cut = (none, s)
  replied s i (ended st out) = (
    if api.pipeline.complete st then some out else none,
    with_link s i (record (s.links i) { pipe_st = st }),
  )

  -- pqproxy_backend_flush_pipeline_ex on the connection `i`, with the output of its context.
  unfoldable pub flush_pipeline_ex :
      Pipes S → ℕ → List Str → Answers → ℕ → Bool → Option Str × Pipes S
  unfolding write_output read_replies replied
  flush_pipeline_ex s i chunks answers cap skip =
      let c = conn_at s.pool i in
      let s' = with_link s i (record (s.links i) { pipe_st = api.init }) in
      if not c.alive || not c.wire
      then (none, s)
      else if not (write_output chunks answers.writes)
      then (none, put_conn s' i (record c { alive = false }))
      else replied s' i (read_replies skip cap 256 answers.replies api.init [])

  -- A blocking pipeline after the messages were queued, or not; the connection is given back.
  unfoldable pub exec_on : Pipes S → ℕ → Bool × Wire → Answers → ℕ → Bool → Option Str × Pipes S
  unfolding flush_pipeline_ex
  exec_on s i (queued, after) answers cap skip =
      let before = (s.links i).context in
      let s' = with_link s i (record (s.links i) { context = after }) in
      let (out, s'') = flush_pipeline_ex s' i (api.outputs before after) answers cap skip in
      if not queued then (none, give_back s' i) else (out, give_back s'' i)

  module _ (net : Backends) (cfg : Config) where
    -- pqproxy_backend_async_begin: the connection's index if it returned 0.
    unfoldable pub async_begin : Pipes S → Cache → Bind → Identity → Option ℕ × Pipes S
    unfolding followed begin_on
    async_begin s cache bind id =
        let (conn, p) = checkout net cfg s.pool id.group in
        elim conn [ none ↦ (none, followed s p) | some i ↦ begin_on (followed s p) i cache bind id ]

    -- pqproxy_backend_exec_bind: the answer if it returned 0. `answers i` are those of connection `i`.
    unfoldable pub exec_bind :
        Pipes S → (ℕ → Answers) → Cache → Bind → Identity → ℕ → Option Str × Pipes S
    unfolding followed exec_on
    exec_bind s answers cache bind id cap =
        let (conn, p) = checkout net cfg s.pool id.group in
        let s' = followed s p in
        elim conn [
          | none ↦ (none, s')
          | some i ↦
              let link = record (s'.links i) { pipe_st = api.init } in
              let queued = on_bind api.wire link.context cache bind id in
              exec_on (with_link s' i link) i queued (answers i) cap true
        ]

    unfoldable pub exec_query : Pipes S → (ℕ → Answers) → Str → Str → ℕ → Option Str × Pipes S
    unfolding followed exec_on
    exec_query s answers group sql cap =
        let (conn, p) = checkout net cfg s.pool group in
        let s' = followed s p in
        elim conn [
          | none ↦ (none, s')
          | some i ↦
              let queued = call api.wire (s'.links i).context (send_query sql) in
              exec_on s' i queued (answers i) cap false
        ]
