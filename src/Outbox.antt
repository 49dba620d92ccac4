-- ===== src/Outbox.antt =====
-- src/iouring_loop.c, the bytes for a client: queue_plain_send, submit_send, submit_poll,
-- the completion of a send, and tls_drive_write. The ring and OpenSSL are parameters.
pub mod Order
pub mod Tls
use pqproxy.Base.{
  ℕ, zero, suc, ◌+◌, ◌-◌, ◌≤◌, Bool, true, false, ◌&&◌, ◌||◌, not, List, [], ◌∷◌, ◌++◌, Option,
  none, some, Str, ltb, leb, ◌==◌, if◌then◌else◌, length, take, drop,
}

-- The fields of conn_t for sending: send_buf up to send_len, and the flags. `ssl` tells that there is TLS.
pub record Outbox : Type 0 where
  pub ssl : Bool
  pub send_buf : Str
  pub send_off : ℕ
  pub send_pending : Bool
  pub poll_pending : Bool
  pub want_poll_out : Bool

-- PQPROXY_IO_BUF
abbrev pub io_buf : ℕ
io_buf = 16384

-- `send_off = send_len = 0`
abbrev pub emptied : Outbox → Outbox
emptied o = record o { send_buf = []; send_off = 0 }

-- submit_send and submit_poll, with whether the ring has room: true for 0.
unfoldable pub submit_send : Bool → Outbox → Bool × Outbox
submit_send sqe o =
    if o.ssl || o.send_pending || leb (length o.send_buf) o.send_off
    then (true, o)
    else if sqe
    then (true, record o { send_pending = true })
    else (false, o)

unfoldable pub submit_poll : Bool → Outbox → Bool × Outbox
submit_poll sqe o =
    if not o.ssl || o.poll_pending
    then (true, o)
    else if sqe
    then (true, record o { poll_pending = true })
    else (false, o)

-- Whether there is room for `len` bytes more, and the outbox.
unfoldable pub make_room : ℕ → Outbox → Bool × Outbox
make_room len o =
    if ltb io_buf (length o.send_buf + len)
    then (let o' = if o.send_off == length o.send_buf then emptied o else o in
        (not (ltb io_buf (length o'.send_buf + len)), o'))
    else (true, o)

-- The bytes are stored, and sending is asked for.
unfoldable pub append : Bool → Str → Outbox → Bool × Outbox
unfolding submit_send submit_poll
append sqe bytes o =
    let full = record o { send_buf = o.send_buf ++ bytes } in
    if o.ssl then submit_poll sqe (record full { want_poll_out = true }) else submit_send sqe full

-- How queue_plain_send ends: -1 without the bytes, or with them, and whether it gives 0.
pub data Queued : Type 0 where
  refused : Outbox → Queued
  queued : Bool → Outbox → Queued

-- queue_plain_send
unfoldable pub queue_plain_send : Bool → Str → Outbox → Queued
unfolding make_room append
queue_plain_send sqe [] o = queued true o
queue_plain_send sqe (b ∷ bytes) o =
    let (room, o') = make_room (length (b ∷ bytes)) o in
    if room then (let (ok, o'') = append sqe (b ∷ bytes) o' in queued ok o'') else refused o'

-- A send of `n` bytes has completed.
unfoldable pub on_sent : Bool → ℕ → Outbox → Outbox
unfolding submit_send
on_sent sqe n o =
    let o' = record o { send_pending = false; send_off = o.send_off + n } in
    if leb (length o.send_buf) (o.send_off + n) then emptied o' else (submit_send sqe o').1

-- `send_off = send_len = 0; want_poll_out = 0`
abbrev pub finished : Outbox → Outbox
finished o = record (emptied o) { want_poll_out = false }

-- What pqproxy_tls_write_plain answers: an error, to wait, or the number of bytes it took.
pub data TlsWrite : Type 0 where
  error wait : TlsWrite
  took : ℕ → TlsWrite

-- tls_drive_write, over the answers; none for -1, and waiting when there are no more answers.
unfoldable pub tls_drive_write : List TlsWrite → Outbox → Option Outbox
tls_drive_write [] o =
    some
      (if leb (length o.send_buf) o.send_off then finished o else record o { want_poll_out = true })
tls_drive_write (error ∷ more) o =
    if leb (length o.send_buf) o.send_off then some (finished o) else none
tls_drive_write (wait ∷ more) o =
    some
      (if leb (length o.send_buf) o.send_off then finished o else record o { want_poll_out = true })
tls_drive_write (took n ∷ more) o = elim (leb (length o.send_buf) o.send_off) [
  | true ↦ some (finished o)
  | false ↦ tls_drive_write more (record o { send_off = o.send_off + n })
]
