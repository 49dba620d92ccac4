-- ===== src/Examples/Sends.antt =====
-- Bytes for a client that are sent in two pieces, and a write over TLS that has to wait.
use pqproxy.Base.{◌≡◌, refl, true, false, List, [], ◌∷◌, some, codes, arith, drop}
use pqproxy.Outbox.{
  Outbox, submit_send, submit_poll, make_room, append, queue_plain_send, on_sent, TlsWrite, wait,
  took, tls_drive_write,
}
use pqproxy.Outbox.Tls.{taken, tls_drive_write-waiting}
use pqproxy.Outbox.Order.{Line, Happens, queues, sends, waiting, run, InOrder, run-InOrder}

abbrev idle : Outbox
idle = record {
  ssl = false;
  send_buf = [];
  send_off = 0;
  send_pending = false;
  poll_pending = false;
  want_poll_out = false;
}

abbrev fresh_line : Line
fresh_line = record { box = idle; got = []; accepted = [] }

abbrev two_sends : List Happens
two_sends =
    queues true (codes "hello ")
    ∷ sends true 4
    ∷ queues true (codes "world")
    ∷ sends true 2
    ∷ sends true 100
    ∷ []

two_sends-got : (run two_sends fresh_line).got ≡ codes "hello world"
unfolding queue_plain_send make_room append submit_send submit_poll on_sent
two_sends-got = refl

run-InOrder_example : InOrder (run two_sends fresh_line)
run-InOrder_example = run-InOrder two_sends fresh_line (refl, omega arith, omega arith)

abbrev secured : Outbox
secured = record idle { ssl = true; send_buf = codes "hello"; want_poll_out = true }

abbrev two_answers : List TlsWrite
two_answers = took 2 ∷ wait ∷ []

two_answers-left : tls_drive_write two_answers secured ≡ some (record secured { send_off = 2 })
unfolding tls_drive_write
two_answers-left = refl

tls_drive_write-waiting_example :
    (codes "llo" ≡ drop (taken two_answers) (waiting secured)) × (true ≡ false → codes "llo" ≡ [])
tls_drive_write-waiting_example =
    tls_drive_write-waiting two_answers secured (record secured { send_off = 2 }) two_answers-left
