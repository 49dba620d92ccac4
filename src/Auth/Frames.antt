-- ===== src/Auth/Frames.antt =====
-- Reading a message that comes in any pieces, and reading what the login writes.
use pqproxy.Base.{
  ℕ, zero, suc, ◌+◌, ◌-◌, ◌*◌, ◌^◌, ◌≤◌, ◌<◌, ◌≡◌, refl, sym, ap, ap₂, subst, ◌∙◌, min, false, ◌||◌,
  List, [], ◌∷◌, ◌++◌, Option, none, some, Str, ltb, if◌then◌else◌, if_false, if_cases, length,
  length-append, take, drop, length-drop, length-take, arith,
}
use mathlib.Core.List.{append_assoc}
use pqproxy.Base.Each.{AllOf}
use pqproxy.Recv.{msg_length}
use pqproxy.Auth.{put_be32, sasl_initial, sasl_response, password_message}
use pqproxy.Auth.Socket.{
  Call, interrupted, fails, moves, Reading, broken, done, prepend, read_exactly, read_body,
  read_msg,
}

-- How many of the calls move bytes; none of them fails.
abbrev pub Moving : List Call → Type 0
Moving [] = Unit
Moving (interrupted ∷ calls) = Moving calls
Moving (fails ∷ calls) = ⊥
Moving (moves n ∷ calls) = Moving calls

abbrev pub moving : List Call → ℕ
moving [] = 0
moving (interrupted ∷ calls) = moving calls
moving (fails ∷ calls) = moving calls
moving (moves n ∷ calls) = suc (moving calls)

-- Reading that gives the bytes and leaves the stream, and enough calls.
abbrev Gives : Str → Str → ℕ → Reading → Type 0
Gives bytes rest calls_left r =
    (calls : List Call) × (r ≡ done bytes calls rest) × Moving calls × (calls_left ≤ moving calls)

take-append-drop : {A : Type 0} (k : ℕ) (xs : List A) → take k xs ++ drop k xs ≡ xs
take-append-drop zero xs = refl
take-append-drop (suc k) [] = refl
take-append-drop (suc k) (x ∷ xs) = ap (◌∷◌ x) (take-append-drop k xs)

take-append : {A : Type 0} (k : ℕ) (xs ys : List A) → k ≤ length xs → take k (xs ++ ys) ≡ take k xs
take-append zero xs ys h = refl
take-append (suc k) [] ys h = absurd (omega arith)
take-append (suc k) (x ∷ xs) ys h = ap (◌∷◌ x) (take-append k xs ys (omega arith))

drop-append :
    {A : Type 0} (k : ℕ) (xs ys : List A) → k ≤ length xs → drop k (xs ++ ys) ≡ drop k xs ++ ys
drop-append zero xs ys h = refl
drop-append (suc k) [] ys h = absurd (omega arith)
drop-append (suc k) (x ∷ xs) ys h = drop-append k xs ys (omega arith)

read_exactly-Gives :
    (calls : List Call) (bytes rest : Str) (more : ℕ)
    → Moving calls
    → length bytes + more ≤ moving calls
    → Gives bytes rest more (read_exactly calls (bytes ++ rest) (length bytes))
unfolding read_exactly
read_exactly-Gives calls [] rest more m h = (calls, refl, m, omega (arith, h))
read_exactly-Gives [] (b ∷ bytes) rest more m h = absurd (omega arith)
read_exactly-Gives (interrupted ∷ calls) (b ∷ bytes) rest more m h =
    read_exactly-Gives calls (b ∷ bytes) rest more m h
read_exactly-Gives (fails ∷ calls) (b ∷ bytes) rest more m h = absurd m
read_exactly-Gives (moves n ∷ calls) (b ∷ bytes) rest more m h =
    let k : ℕ = min n (min (length bytes) (length (bytes ++ rest))) in
    let fits : k ≤ length bytes = omega arith in
    let size : length (drop k bytes) ≡ length bytes - k = length-drop k bytes in
    let (calls', e, m', left) =
      read_exactly-Gives calls (drop k bytes) rest more m (omega (arith, size, h)) in
    let begin : take k (bytes ++ rest) ≡ take k bytes = take-append k bytes rest fits in
    let tail : drop k (bytes ++ rest) ≡ drop k bytes ++ rest = drop-append k bytes rest fits in
    (
      calls',
      ap₂ (λ xs r. prepend (b ∷ xs) r) begin (ap₂ (read_exactly calls) tail (sym size) ∙ e)
          ∙ ap (λ xs. done (b ∷ xs) calls' rest) (take-append-drop k bytes),
      m',
      left,
    )

-- A message as the server frames it: its length field says how long it is.
abbrev pub IsFramed : Str → Type 0
IsFramed m = (4 ≤ msg_length m) × (msg_length m ≤ 16 * 2 ^ 20) × (length m ≡ 1 + msg_length m)

framed_read :
    (calls : List Call) (hdr body rest : Str) (cap : ℕ)
    → length hdr ≡ 5
    → IsFramed (hdr ++ body)
    → msg_length hdr ≡ msg_length (hdr ++ body)
    → length (hdr ++ body) ≤ cap
    → Moving calls
    → length (hdr ++ body) ≤ moving calls
    → (calls' : List Call) × (read_msg calls (hdr ++ (body ++ rest)) cap
        ≡ done (hdr ++ body) calls' rest)
unfolding read_msg read_body
framed_read calls hdr body rest cap five (low, high, size) same room m enough =
    let both : length (hdr ++ body) ≡ length hdr + length body = length-append hdr body in
    let (calls1, e1, m1, l1) =
      read_exactly-Gives calls hdr (body ++ rest) (length body) m (omega (arith, both, enough)) in
    let (calls2, e2, m2, l2) = read_exactly-Gives calls1 body rest 0 m1 (omega (arith, l1)) in
    let fits : (ltb (msg_length hdr) 4
          || ltb (16 * 2 ^ 20) (msg_length hdr)
          || ltb cap (1 + msg_length hdr))
        ≡ false =
      ground (arith, both, low, high, size, same, room) in
    let left : 1 + msg_length hdr - 5 ≡ length body = omega (arith, both, five, size, same) in
    (
      calls2,
      ap (read_body cap) (ap (read_exactly calls (hdr ++ (body ++ rest))) (sym five) ∙ e1)
          ∙ if_false broken fits
          ∙ ap (prepend hdr) (ap (read_exactly calls1 (body ++ rest)) left ∙ e2),
    )

msg_length-take : (m : Str) → 5 ≤ length m → msg_length (take 5 m) ≡ msg_length m
msg_length-take [] h = absurd (omega arith)
msg_length-take (a ∷ []) h = absurd (omega arith)
msg_length-take (a ∷ b ∷ []) h = absurd (omega arith)
msg_length-take (a ∷ b ∷ c ∷ []) h = absurd (omega arith)
msg_length-take (a ∷ b ∷ c ∷ d ∷ []) h = absurd (omega arith)
msg_length-take (a ∷ b ∷ c ∷ d ∷ e ∷ m) h = refl

-- A message whose length field is 4 to 16 MiB, of that length and within the buffer, is read whole
-- and nothing more, whatever pieces it comes in and however often a read is interrupted, if no read
-- fails and as many reads move bytes as it has bytes.
pub read_msg-whole :
    (calls : List Call) (m rest : Str) (cap : ℕ)
    → IsFramed m
    → length m ≤ cap
    → Moving calls
    → length m ≤ moving calls
    → (calls' : List Call) × (read_msg calls (m ++ rest) cap ≡ done m calls' rest)
read_msg-whole calls m rest cap framed room moves_on enough =
    let whole : take 5 m ++ drop 5 m ≡ m = take-append-drop 5 m in
    let (low, high, size) = framed in
    let (calls', e) =
      framed_read calls (take 5 m) (drop 5 m) rest cap (length-take 5 m ∙ omega (arith, low, size))
        (subst IsFramed (sym whole) framed)
        (msg_length-take m (omega (arith, low, size)) ∙ ap msg_length (sym whole))
        (subst (λ m. length m ≤ cap) (sym whole) room) moves_on
        (subst (λ m. length m ≤ moving calls) (sym whole) enough) in
    (
      calls',
      ap (λ stream. read_msg calls stream cap)
            (ap (λ m. m ++ rest) (sym whole) ∙ append_assoc (take 5 m) (drop 5 m) rest)
          ∙ e
          ∙ ap (λ m. done m calls' rest) whole,
    )

put_be32-msg_length : (c v : ℕ) (s : Str) → v < 2 ^ 32 → msg_length (c ∷ put_be32 v ++ s) ≡ v
put_be32-msg_length c v s h = omega arith

put_be32-IsFramed :
    (c v : ℕ) (s : Str)
    → 4 ≤ v
    → v ≤ 16 * 2 ^ 20
    → v ≡ 4 + length s
    → IsFramed (c ∷ put_be32 v ++ s)
put_be32-IsFramed c v s low high e =
    let same : msg_length (c ∷ put_be32 v ++ s) ≡ v = put_be32-msg_length c v s (omega arith) in
    (omega (arith, same), omega (arith, same), omega (arith, same, e))

sasl_initial-IsFramed :
    (mech text : Str)
    → length mech + length text + 9 ≤ 16 * 2 ^ 20
    → IsFramed (sasl_initial mech text)
sasl_initial-IsFramed mech text h =
    let begin : Str = mech ++ 0 ∷ put_be32 (length text) in
    let size : length (begin ++ text) ≡ length mech + 5 + length text =
      length-append begin text
      ∙ ap (λ n. n + length text) (length-append mech (0 ∷ put_be32 (length text))) in
    put_be32-IsFramed b'p' (4 + (length mech + 1 + 4 + length text)) (begin ++ text) (omega arith)
      (omega arith) (omega (arith, size))

password_message-IsFramed :
    (password : Option Str) → AllOf (λ m. IsFramed m × (length m ≤ 512)) (password_message password)
unfolding password_message
password_message-IsFramed password = go (elim password as (λ x. Str) [ none ↦ [] | some s ↦ s ])
  where
    go :
        (text : Str)
        → AllOf
            (λ m. IsFramed m × (length m ≤ 512))
            (if ltb 512 (5 + (length text + 1))
              then none
              else some (b'p' ∷ put_be32 (4 + (length text + 1)) ++ text ++ 0 ∷ []))
    go text =
        let size : length (text ++ 0 ∷ []) ≡ length text + 1 = length-append text (0 ∷ []) in
        if_cases (AllOf λ (m : Str). IsFramed m × (length m ≤ 512))
          (ltb 512 (5 + (length text + 1))) (λ e. tt)
          λ e. (
            put_be32-IsFramed b'p' (4 + (length text + 1)) (text ++ 0 ∷ []) (omega arith)
                (ground (arith, e)) (omega (arith, size)),
            ground (arith, e, size),
          )

-- The messages of the login whose texts together fit 16 MiB have length fields that say how long
-- they are, so that read_msg reads them back, and a message with a password has at most 512 bytes.
pub login-IsFramed :
    (mech text : Str) (password : Option Str) (m : Str)
    → length mech + length text + 9 ≤ 16 * 2 ^ 20
    → password_message password ≡ some m
    → IsFramed (sasl_initial mech text)
      × IsFramed (sasl_response text)
      × IsFramed m
      × (length m ≤ 512)
login-IsFramed mech text password m h e =
    let (framed, short) =
      subst (AllOf λ m. IsFramed m × (length m ≤ 512)) e (password_message-IsFramed password) in
    (
      sasl_initial-IsFramed mech text h,
      put_be32-IsFramed b'p' (4 + length text) text (omega arith) (omega arith) refl,
      framed,
      short,
    )
