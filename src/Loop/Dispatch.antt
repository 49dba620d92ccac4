-- ===== src/Loop/Dispatch.antt =====
-- src/iouring_loop.c, the input of a client over TLS and in the clear, and the body of the loop of
-- pqproxy_run: what each completion does. The sockets and OpenSSL are the completions' contents.
use pqproxy.Base.{
  ℕ, ◌+◌, ◌^◌, ◌*◌, ◌/◌, ◌%◌, Bool, true, false, ◌&&◌, ◌||◌, not, List, Option, none, some, Str,
  ltb, leb, ◌==◌, if◌then◌else◌, length,
}
use pqproxy.Outbox.{TlsWrite, tls_drive_write, on_sent}
use pqproxy.WaitRing.{max_conns}
use pqproxy.Metrics.{set_gauges}
use pqproxy.Loop.{
  Backend, ConnState, cs_tls_hs, cs_closing, Server, Setup, FrontApi, Handled, note, put, put_pool,
}
use pqproxy.Loop.Output.{entries_left}
use pqproxy.Loop.Schedule.{is_free, is_closing}
use pqproxy.Loop.Pipelines.{Sent, on_be_send_cqe, on_be_recv_cqe}
use pqproxy.Loop.Frontend.{Event, process_frontend}
use pqproxy.Loop.Serving.{
  Handshake, hs_failed, hs_waits, hs_done, tls_identity, active_from, close_conn, or_close,
  submit_recv, poll_again, tls_on_handshake_done, accept_one,
}

-- pqproxy_tls_read_plain until it has nothing: the messages found in each piece, and how it ends.
pub data Reads : Type 0 where
  wants closes fails : Reads
  piece : List Event → Reads → Reads

-- What poll reports, an error or whether the socket is readable and writable, and what OpenSSL then
-- answers to the handshake, to the reads, and to the writes before and after them.
pub data Polled : Type 0 where
  poll_error : Polled
  ready : Bool → Bool → Handshake → Reads → List TlsWrite → List TlsWrite → Polled

-- A receive: an error, the end, or the messages found.
pub data Received : Type 0 where
  recv_error recv_end : Received
  recv_events : List Event → Received

-- What the loop wakes up for: a completion, or the time. `ticks maintain gauges` tells which of the
-- intervals are over, and the number of live backends.
pub data Completion : Type 0 where
  ticks : Bool → Option ℕ → Completion
  accepted : ℕ → Bool → Option Handshake → Completion
  received : ℕ → Received → Completion
  sent_plain : ℕ → Option ℕ → Completion
  polled : ℕ → Polled → Completion
  be_sent : ℕ → Sent → Completion
  be_received : ℕ → Str → Completion

-- pack_ud and unpack_ud, on operations and slots as 32-bit numbers.
unfoldable pub pack_ud : ℕ → ℕ → ℕ
pack_ud op slot = (op % 2 ^ 32) * 2 ^ 32 + slot % 2 ^ 32

unfoldable pub unpack_ud : ℕ → ℕ × ℕ
unpack_ud ud = (ud / 2 ^ 32 % 2 ^ 32, ud % 2 ^ 32)

-- PQPROXY_URING_ENTRIES
abbrev pub uring_entries : ℕ
uring_entries = 512

-- Go on if a step returned 0.
abbrev pub then_do : {P : Type 0} → Handled P → (Server P → Handled P) → Handled P
then_do (true, s) next = next s
then_do (false, s) next = (false, s)

abbrev pub is_handshaking : ConnState → Bool
is_handshaking cs_tls_hs = true
is_handshaking _ = false

module _ {P : Type 0} (b : Backend P) (cfg : Setup) (api : FrontApi) where
  -- tls_drive_write on the connection.
  unfoldable pub write_tls : List TlsWrite → Server P → ℕ → Handled P
  write_tls writes s i = elim (tls_drive_write writes (s.conns i).out) [
    | none ↦ (false, s)
    | some o ↦ (true, put s i (record (s.conns i) { out = o }))
  ]

  unfoldable pub tls_drive_read : Reads → Server P → ℕ → Handled P
  tls_drive_read wants s i = (true, s)
  tls_drive_read closes s i = (true, put s i (record (s.conns i) { state = cs_closing }))
  tls_drive_read fails s i = (false, s)
  tls_drive_read (piece events reads) s i = elim (process_frontend b cfg api s i events).0 [
    | true ↦ tls_drive_read reads (process_frontend b cfg api s i events).1 i
    | false ↦ (false, (process_frontend b cfg api s i events).1)
  ]

  -- on_tls_poll after the handshake.
  unfoldable pub tls_transfer :
      Bool → Bool → Reads → List TlsWrite → List TlsWrite → Server P → ℕ → Handled P
  unfolding write_tls tls_drive_read
  tls_transfer readable writable reads writes more s i =
      then_do (if writable then write_tls writes s i else (true, s)) λ s1.
        then_do (if readable then tls_drive_read reads s1 i else (true, s1)) λ s2.
          let o = (s2.conns i).out in
          then_do (if ltb o.send_off (length o.send_buf) then write_tls more s2 i else (true, s2))
            λ s3.
              if is_closing (s3.conns i).state && length (s3.conns i).out.send_buf == 0
              then (false, s3)
              else poll_again b cfg api s3 i

  -- The handshake in on_tls_poll, and the transfer if it is done.
  unfoldable pub tls_shake : Handshake → Server P → ℕ → (Server P → Handled P) → Handled P
  tls_shake hs_failed s i next = (false, s)
  tls_shake (hs_waits write) s i next =
      let c = s.conns i in
      poll_again b cfg api (put s i (record c { out = record c.out { want_poll_out = write } })) i
  tls_shake (hs_done cert) s i next =
      then_do (tls_on_handshake_done b cfg api s i (tls_identity cert)) next

  unfoldable pub on_tls_poll : Server P → ℕ → Polled → Handled P
  unfolding tls_transfer tls_shake
  on_tls_poll s i poll_error = (false, s)
  on_tls_poll s i (ready readable writable hs reads writes more) =
      if is_handshaking (s.conns i).state
      then tls_shake hs s i (λ s'. tls_transfer readable writable reads writes more s' i)
      else tls_transfer readable writable reads writes more s i

  -- The branch for OP_RECV, with on_recv_plain and feed_plain.
  unfoldable pub on_received_plain : Server P → ℕ → Received → Server P
  on_received_plain s i recv_error = close_conn b cfg api s i
  on_received_plain s i recv_end =
      close_conn b cfg api (put s i (record (s.conns i) { state = cs_closing })) i
  on_received_plain s i (recv_events events) =
      let (ok, s') = process_frontend b cfg api s i events in
      if not ok || is_closing (s'.conns i).state
      then close_conn b cfg api s' i
      else or_close b cfg api i (submit_recv b cfg api s' i)

  -- The branch for OP_SEND.
  unfoldable pub on_sent_plain : Server P → ℕ → Option ℕ → Server P
  on_sent_plain s i none = close_conn b cfg api s i
  on_sent_plain s i (some n) =
      let c = s.conns i in
      let o = on_sent (ltb 0 s.sqes) n c.out in
      let s' = record (put s i (record c { out = o })) {
        sqes = entries_left (record c.out { send_pending = false }) o s.sqes;
      } in
      if is_closing c.state && length o.send_buf == 0 then close_conn b cfg api s' i else s'

  -- A completion on a slot, with the flag that it clears; a free slot's completions are dropped.
  unfoldable pub on_completion : Server P → Completion → Server P
  unfolding on_received_plain on_sent_plain on_tls_poll
  on_completion s (ticks maintain gauges) =
      let s' = if maintain && cfg.has_pool then put_pool s (b.maintain s.pool) else s in
      elim gauges [
        | none ↦ s'
        | some live ↦ note (set_gauges live (active_from s.conns 0 max_conns)) s'
      ]
  on_completion s (accepted fd created tls) = accept_one b cfg api s fd created tls
  on_completion s (received i r) =
      if leb max_conns i || is_free (s.conns i).state
      then s
      else on_received_plain (put s i (record (s.conns i) { recv_pending = false })) i r
  on_completion s (sent_plain i r) =
      if leb max_conns i || is_free (s.conns i).state then s else on_sent_plain s i r
  on_completion s (polled i r) =
      let c = s.conns i in
      if leb max_conns i || is_free c.state
      then s
      else or_close b cfg api i
          (on_tls_poll (put s i (record c { out = record c.out { poll_pending = false } })) i r)
  on_completion s (be_sent i r) = elim (s.conns i).be [
    | none ↦ s
    | some k ↦
        if leb max_conns i || is_free (s.conns i).state
        then s
        else or_close b cfg api i (on_be_send_cqe b cfg api s i k r)
  ]
  on_completion s (be_received i bytes) = elim (s.conns i).be [
    | none ↦ s
    | some k ↦
        if leb max_conns i || is_free (s.conns i).state
        then s
        else or_close b cfg api i (on_be_recv_cqe b cfg api s i k bytes)
  ]

  -- A round of the loop of pqproxy_run: io_uring_submit empties the submission queue.
  unfoldable pub serve : Server P → Completion → Server P
  unfolding on_completion
  serve s event = record (on_completion s event) { sqes = uring_entries }
