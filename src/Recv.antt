-- ===== src/Recv.antt =====
-- src/backend_pool.c, the bytes that an asynchronous pipeline receives: how they are cut into messages
-- and which of them go to the client. The status of the pipeline is pique's.
pub mod Chunks
pub mod Split
pub mod Reads
use pqproxy.Base.{
  ℕ, zero, suc, ◌+◌, ◌*◌, ◌^◌, Bool, true, false, not, ◌||◌, List, [], ◌∷◌, ◌++◌, Option, none,
  some, Str, ltb, ◌==◌, if◌then◌else◌, get_or, length, take, drop,
}

-- pqwire_msg_peek (type and total length), pqwire_pipeline_feed_backend_msg (whether it returned 0,
-- and the status), the status' field `complete`, and pqwire_pipeline_filter_backend_type.
pub record PipelineApi (S : Type 0) : Type 0 where
  pub peek : Str → Option (ℕ × ℕ)
  pub feed : S → Str → Bool × S
  pub complete : S → Bool
  pub filtered : ℕ → Bool → Bool

-- The fields of a connection that receiving changes, and the client's buffer `out`.
pub record Recv (S : Type 0) : Type 0 where
  pub recv_acc : Str
  pub pipe_st : S
  pub out : Str

abbrev pub be_recv_cap : ℕ
be_recv_cap = 16384

-- The length that the bytes 1 to 4 hold.
abbrev pub msg_length : Str → ℕ
msg_length m = get_or m 1 0 * 2 ^ 24 + get_or m 2 0 * 2 ^ 16 + get_or m 3 0 * 2 ^ 8 + get_or m 4 0

-- What stands at the front of the received bytes: a part of a message, a length below 4, or a whole
-- message and what follows it.
pub data Front : Type 0 where
  partial malformed : Front
  message : Str → Str → Front

unfoldable pub front : Str → Front
front m =
    if ltb (length m) 5
    then partial
    else if ltb (msg_length m) 4
    then malformed
    else if ltb (length m) (1 + msg_length m)
    then partial
    else message (take (1 + msg_length m) m) (drop (1 + msg_length m) m)

-- How the loop of async_on_recv ends.
pub data Ending : Type 0 where
  failed waits completes : Ending

pub record Scan (S : Type 0) : Type 0 where
  pub ending : Ending
  pub rest : Str
  pub pipe_st : S
  pub out : Str

-- One round of the loop.
pub data Step (S : Type 0) : Type 0 where
  stops : Scan S → Step S
  continues : Str → S → Str → Step S

abbrev pub refused : {S : Type 0} → Str → S → Str → Step S
refused rest st out = stops (record { ending = failed; rest = rest; pipe_st = st; out = out })

module _ {S : Type 0} (api : PipelineApi S) (skip : Bool) (out_cap : ℕ) where
  -- The round is over, or the pipeline is; `rest` follows the message.
  unfoldable pub delivered : Str → S → Str → Step S
  delivered rest st out =
      if api.complete st
      then stops (record { ending = completes; rest = rest; pipe_st = st; out = out })
      else continues rest st out

  -- be_filter_append, after the feeding of the status.
  unfoldable pub fed : Str → ℕ → Str → Bool × S → Str → Step S
  unfolding delivered
  fed msg type rest (ok, st) out =
      if not ok
      then refused rest st out
      else if api.filtered type skip
      then delivered rest st out
      else if ltb out_cap (length out + length msg)
      then refused rest st out
      else delivered rest st (out ++ msg)

  unfoldable pub be_filter_append : Str → Str → S → Str → Step S
  unfolding fed
  be_filter_append msg rest st out = elim (api.peek msg) [
    | none ↦ refused rest st out
    | some (type, total) ↦
        if ltb (length msg) 5 || not (total == length msg)
        then refused rest st out
        else fed msg type rest (api.feed st msg) out
  ]

  unfoldable pub on_front : Front → Str → S → Str → Step S
  unfolding be_filter_append
  on_front partial acc st out =
      stops (record { ending = waits; rest = acc; pipe_st = st; out = out })
  on_front malformed acc st out =
      stops (record { ending = failed; rest = acc; pipe_st = st; out = out })
  on_front (message msg rest) acc st out = be_filter_append msg rest st out

  -- The loop; each round but the last takes at least one byte, so the length is fuel enough.
  unfoldable pub scan_loop : ℕ → Str → S → Str → Scan S
  unfolding on_front
  scan_loop zero acc st out = record { ending = waits; rest = acc; pipe_st = st; out = out }
  scan_loop (suc n) acc st out = elim (on_front (front acc) acc st out) [
    | stops r ↦ r
    | continues rest st' out' ↦ scan_loop n rest st' out'
  ]

  -- What async_on_recv keeps: all bytes on a failure, else those that are left.
  unfoldable pub kept : Ending → Str → Scan S → Ending × Recv S
  kept failed acc r = (failed, record { recv_acc = acc; pipe_st = r.pipe_st; out = r.out })
  kept waits acc r = (waits, record { recv_acc = r.rest; pipe_st = r.pipe_st; out = r.out })
  kept completes acc r = (completes, record { recv_acc = r.rest; pipe_st = r.pipe_st; out = r.out })

  -- pqproxy_backend_async_on_recv: `failed` for -1, else 0 with `*complete` 0 or 1.
  unfoldable pub async_on_recv : Recv S → Str → Ending × Recv S
  unfolding scan_loop kept
  async_on_recv c bytes =
      let acc = c.recv_acc ++ bytes in
      if ltb be_recv_cap (length c.recv_acc + length bytes)
      then (failed, c)
      else (let r = scan_loop (length acc) acc c.pipe_st c.out in kept r.ending acc r)
