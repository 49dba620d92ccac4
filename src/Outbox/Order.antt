-- ===== src/Outbox/Order.antt =====
-- A client gets the bytes that were queued for it, in order.
use pqproxy.Base.{
  ℕ, zero, suc, ◌+◌, ◌-◌, ◌≤◌, ◌≡◌, refl, sym, ap, ◌∙◌, min, Bool, true, false, ◌||◌, not, List, [],
  ◌∷◌, ◌++◌, Str, ltb, leb, ◌==◌, if◌then◌else◌, if_cases, length, length-append, take, drop,
  length-drop, arith,
}
use mathlib.Core.List.{append_assoc, append-nil}
use pqproxy.Outbox.{
  Outbox, io_buf, submit_send, submit_poll, make_room, append, Queued, refused, queued,
  queue_plain_send, on_sent,
}

-- An outbox, the bytes that the client has got, and those that were accepted for it.
pub record Line : Type 0 where
  pub box : Outbox
  pub got : Str
  pub accepted : Str

-- What happens to a connection: bytes are queued, and the ring has room or not; or a send of `n` bytes
-- completes.
pub data Happens : Type 0 where
  queues : Bool → Str → Happens
  sends : Bool → ℕ → Happens

-- The bytes that wait.
abbrev pub waiting : Outbox → Str
waiting o = drop o.send_off o.send_buf

abbrev after_queue : Str → Line → Queued → Line
after_queue bytes l (refused o) = record l { box = o }
after_queue bytes l (queued ok o) = record l { box = o; accepted = l.accepted ++ bytes }

-- A completed send brings the client the first of the bytes that wait, no more than there are, and none
-- if no send is under way.
abbrev pub happens : Happens → Line → Line
happens (queues sqe bytes) l = after_queue bytes l (queue_plain_send sqe bytes l.box)
happens (sends sqe n) l =
    if l.box.send_pending
    then (let k = min n (length (waiting l.box)) in
        record {
          box = on_sent sqe k l.box;
          got = l.got ++ take k (waiting l.box);
          accepted = l.accepted;
        })
    else l

abbrev pub run : List Happens → Line → Line
run [] l = l
run (e ∷ es) l = run es (happens e l)

-- What was got and what waits is what was accepted, and the buffer holds.
abbrev pub InOrder : Line → Type 0
InOrder l =
    (l.got ++ waiting l.box ≡ l.accepted)
    × (l.box.send_off ≤ length l.box.send_buf)
    × (length l.box.send_buf ≤ io_buf)

-- The same bytes wait, and the buffer holds.
abbrev SameBytes : Outbox → Outbox → Type 0
SameBytes o o' =
    (waiting o' ≡ waiting o) × (o'.send_off ≤ length o'.send_buf) × (length o'.send_buf ≤ io_buf)

pub drop_all : (k : ℕ) (xs : Str) → length xs ≤ k → drop k xs ≡ []
drop_all zero [] h = refl
drop_all zero (x ∷ xs) h = absurd (omega arith)
drop_all (suc k) [] h = refl
drop_all (suc k) (x ∷ xs) h = drop_all k xs (omega arith)

make_room-SameBytes :
    (n : ℕ) (o : Outbox)
    → o.send_off ≤ length o.send_buf
    → length o.send_buf ≤ io_buf
    → SameBytes o (make_room n o).1
      × ((make_room n o).0 ≡ true → length (make_room n o).1.send_buf + n ≤ io_buf)
unfolding make_room
make_room-SameBytes n o low high =
    if_cases P (ltb io_buf (length o.send_buf + n))
      (λ e.
        if_cases (λ (o' : Outbox). P (not (ltb io_buf (length o'.send_buf + n)), o'))
          (o.send_off == length o.send_buf)
          (λ k. (
            (sym (drop_all o.send_off o.send_buf (ground (arith, k))), omega arith, omega arith),
            λ h. ground (arith, h),
          ))
          (λ k. ((refl, low, high), λ h. ground (arith, h))))
      (λ e. ((refl, low, high), λ k. ground (arith, e)))
  where
    P : Bool × Outbox → Type 0
    P r = SameBytes o r.1 × (r.0 ≡ true → length r.1.send_buf + n ≤ io_buf)

drop-append : (k : ℕ) (xs ys : Str) → k ≤ length xs → drop k (xs ++ ys) ≡ drop k xs ++ ys
drop-append zero xs ys h = refl
drop-append (suc k) [] ys h = absurd (omega arith)
drop-append (suc k) (x ∷ xs) ys h = drop-append k xs ys (omega arith)

-- Asking for a send or for a poll keeps the bytes.
submit-SameBytes :
    (sqe : Bool) (o : Outbox)
    → o.send_off ≤ length o.send_buf
    → length o.send_buf ≤ io_buf
    → SameBytes o (submit_send sqe o).1 × SameBytes o (submit_poll sqe o).1
unfolding submit_send submit_poll
submit-SameBytes sqe o low high =
    let P : Bool × Outbox → Type 0 = (λ r. SameBytes o r.1) in
    (
      if_cases P (o.ssl || o.send_pending || leb (length o.send_buf) o.send_off)
          (λ e. (refl, low, high))
          (λ e. if_cases P sqe (λ k. (refl, low, high)) (λ k. (refl, low, high))),
      if_cases P (not o.ssl || o.poll_pending) (λ e. (refl, low, high))
          (λ e. if_cases P sqe (λ k. (refl, low, high)) (λ k. (refl, low, high))),
    )

append-waiting :
    (sqe : Bool) (bytes : Str) (o : Outbox)
    → o.send_off ≤ length o.send_buf
    → length o.send_buf + length bytes ≤ io_buf
    → (waiting (append sqe bytes o).1 ≡ waiting o ++ bytes)
      × ((append sqe bytes o).1.send_off ≤ length (append sqe bytes o).1.send_buf)
      × (length (append sqe bytes o).1.send_buf ≤ io_buf)
unfolding append
append-waiting sqe bytes o low fits =
    let size : length (o.send_buf ++ bytes) ≡ length o.send_buf + length bytes =
      length-append o.send_buf bytes in
    let full : Outbox = record o { send_buf = o.send_buf ++ bytes } in
    let P : Bool × Outbox → Type 0 = (λ r.
      (waiting r.1 ≡ waiting o ++ bytes)
      × (r.1.send_off ≤ length r.1.send_buf)
      × (length r.1.send_buf ≤ io_buf)) in
    let moved : waiting full ≡ waiting o ++ bytes = drop-append o.send_off o.send_buf bytes low in
    if_cases P o.ssl
      (λ e.
        let (a, b, c) =
          (submit-SameBytes sqe (record full { want_poll_out = true }) (omega (arith, size))
            (omega (arith, size))).1 in
        (a ∙ moved, b, c))
      (λ e.
        let (a, b, c) = (submit-SameBytes sqe full (omega (arith, size)) (omega (arith, size))).0 in
        (a ∙ moved, b, c))

queue-InOrder :
    (sqe : Bool) (bytes : Str) (l : Line) → InOrder l → InOrder (happens (queues sqe bytes) l)
unfolding queue_plain_send
queue-InOrder sqe [] l (e, low, high) = (e ∙ sym (append-nil l.accepted), low, high)
queue-InOrder sqe (b ∷ bytes) l (e, low, high) =
    let n : ℕ = length (b ∷ bytes) in
    let ((same, low', high'), room) = make_room-SameBytes n l.box low high in
    if_cases (λ r. InOrder (after_queue (b ∷ bytes) l r)) (make_room n l.box).0
      (λ k.
        let (moved, low2, high2) =
          append-waiting sqe (b ∷ bytes) (make_room n l.box).1 low' (room k) in
        (
          ap (λ w. l.got ++ w) (moved ∙ ap (λ w. w ++ b ∷ bytes) same)
              ∙ sym (append_assoc l.got (waiting l.box) (b ∷ bytes))
              ∙ ap (λ w. w ++ b ∷ bytes) e,
          low2,
          high2,
        ))
      (λ k. (ap (λ w. l.got ++ w) same ∙ e, low', high'))

pub drop-drop : (j k : ℕ) (xs : Str) → drop (j + k) xs ≡ drop k (drop j xs)
drop-drop zero k xs = ap (λ n. drop n xs) (omega arith)
drop-drop (suc j) k [] = drop_all (suc j + k) [] (omega arith) ∙ sym (drop_all k [] (omega arith))
drop-drop (suc j) k (x ∷ xs) =
    let next : suc j + k ≡ suc (j + k) = omega arith in
    ap (λ n. drop n (x ∷ xs)) next ∙ drop-drop j k xs

take-append-drop : (k : ℕ) (xs : Str) → take k xs ++ drop k xs ≡ xs
take-append-drop zero xs = refl
take-append-drop (suc k) [] = refl
take-append-drop (suc k) (x ∷ xs) = ap (◌∷◌ x) (take-append-drop k xs)

on_sent-waiting :
    (sqe : Bool) (k : ℕ) (o : Outbox)
    → k ≤ length (waiting o)
    → o.send_off ≤ length o.send_buf
    → length o.send_buf ≤ io_buf
    → (waiting (on_sent sqe k o) ≡ drop k (waiting o))
      × ((on_sent sqe k o).send_off ≤ length (on_sent sqe k o).send_buf)
      × (length (on_sent sqe k o).send_buf ≤ io_buf)
unfolding on_sent
on_sent-waiting sqe k o h low high =
    let size : length (waiting o) ≡ length o.send_buf - o.send_off =
      length-drop o.send_off o.send_buf in
    let P : Outbox → Type 0 = (λ o'.
      (waiting o' ≡ drop k (waiting o))
      × (o'.send_off ≤ length o'.send_buf)
      × (length o'.send_buf ≤ io_buf)) in
    if_cases P (leb (length o.send_buf) (o.send_off + k))
      (λ e. (
        sym (drop_all (o.send_off + k) o.send_buf (ground (arith, e)))
            ∙ drop-drop o.send_off k o.send_buf,
        omega arith,
        omega arith,
      ))
      (λ e.
        let sent : Outbox = record o { send_pending = false; send_off = o.send_off + k } in
        let (same, low', high') =
          (submit-SameBytes sqe sent (omega (arith, h, size, low)) high).0 in
        (same ∙ drop-drop o.send_off k o.send_buf, low', high'))

sent-InOrder : (sqe : Bool) (n : ℕ) (l : Line) → InOrder l → InOrder (happens (sends sqe n) l)
sent-InOrder sqe n l (e, low, high) =
    let w : Str = waiting l.box in
    let k : ℕ = min n (length w) in
    if_cases InOrder l.box.send_pending
      (λ p.
        let (moved, low', high') = on_sent-waiting sqe k l.box (omega arith) low high in
        (
          ap (λ v. (l.got ++ take k w) ++ v) moved
              ∙ append_assoc l.got (take k w) (drop k w)
              ∙ ap (λ v. l.got ++ v) (take-append-drop k w)
              ∙ e,
          low',
          high',
        ))
      (λ p. (e, low, high))

happens-InOrder : (e : Happens) (l : Line) → InOrder l → InOrder (happens e l)
happens-InOrder (queues sqe bytes) l h = queue-InOrder sqe bytes l h
happens-InOrder (sends sqe n) l h = sent-InOrder sqe n l h

-- From a connection where it is so, after any sequence of queued bytes, refused or not, and
-- completed sends of any size, what the client got and then what waits in the buffer is all that
-- was accepted, and the buffer and its offset are within bounds.
pub run-InOrder : (es : List Happens) (l : Line) → InOrder l → InOrder (run es l)
run-InOrder [] l h = h
run-InOrder (e ∷ es) l h = run-InOrder es (happens e l) (happens-InOrder e l h)
