-- ===== src/FeQueue/Fifo.antt =====
-- A well-formed request queue behaves as a bounded list: push at the end, pop and push_front at the
-- front.
use pqproxy.Base.{
  ℕ, zero, suc, ◌+◌, ◌-◌, ◌%◌, ◌≤◌, ◌<◌, ◌≡◌, refl, ap, ap₂, ◌∙◌, inl, inr, Bool, true, false, List,
  [], ◌∷◌, ◌++◌, Option, none, some, leb, Bool-cases, ◌==◌, if◌then◌else◌, get_or, set, length,
  length-set, length-replicate, arith,
}
use pqproxy.Base.Ring.{items, length-items, items-set, items_shift, items-set_end, items-set_front}
use pqproxy.FeQueue.{Item, feq_none, Queue, fe_q_max, clear_all, push, pop, push_front}

pub record Inv (q : Queue) : Type 0 where
  pub wide : length q.slots ≡ fe_q_max
  pub head_in : q.head < fe_q_max
  pub count_in : q.count ≤ fe_q_max
  pub tail_at : q.tail ≡ (q.head + q.count) % fe_q_max

-- The queued messages, oldest first.
pub contents : Queue → List Item
contents q = items feq_none fe_q_max q.slots q.head 0 q.count

pub length-contents : (q : Queue) → length (contents q) ≡ q.count
unfolding contents
length-contents q = length-items feq_none fe_q_max q.slots q.head 0 q.count

pub clear_all-Inv : Inv clear_all × (contents clear_all ≡ [])
unfolding clear_all contents items
clear_all-Inv = (
  record {
    wide = length-replicate 32 feq_none;
    head_in = omega arith;
    count_in = omega arith;
    tail_at = refl;
  },
  refl,
)

-- What a bounded list answers to the three calls.
abbrev pub list_push : List Item → Item → Bool × List Item
list_push xs x = if leb fe_q_max (length xs) then (false, xs) else (true, xs ++ x ∷ [])

abbrev pub list_push_front : List Item → Item → Bool × List Item
list_push_front xs x = if leb fe_q_max (length xs) then (false, xs) else (true, x ∷ xs)

abbrev pub list_pop : List Item → Option Item × List Item
list_pop [] = (none, [])
list_pop (x ∷ xs) = (some x, xs)

push-Inv : (q : Queue) (x : Item) → Inv q → Inv (push q x).1
unfolding push
push-Inv q x v = ground (arith, length-set q.slots q.tail x)

push_front-Inv : (q : Queue) (x : Item) → Inv q → Inv (push_front q x).1
unfolding push_front
push_front-Inv q x v = ground (arith, length-set q.slots ((q.head + 32 - 1) % 32) x)

pop-Inv : (q : Queue) → Inv q → Inv (pop q).1
unfolding pop
pop-Inv q v = ground (arith, length-set q.slots q.head feq_none)

-- The same reply, and the same messages queued, in order.
abbrev pub Agrees {ℓ} : {A : Type ℓ} → A × Queue → A × List Item → Type ℓ
Agrees r s = (r.0 ≡ s.0) × Inv r.1 × (contents r.1 ≡ s.1)

-- A push appends, unless 32 messages are queued: then it is refused and changes nothing.
pub push_refines : (q : Queue) (x : Item) → Inv q → Agrees (push q x) (list_push (contents q) x)
unfolding push contents
push_refines q x v = elim (Bool-cases (leb fe_q_max q.count)) [
  | inl full ↦ rw (length-contents q, full) (refl, v, refl)
  | inr room ↦
      let lt : q.count < fe_q_max = ground arith in
      rw (length-contents q, room)
        (
          refl,
          rw room at (push-Inv q x v),
          ap (λ i. items feq_none 32 (set q.slots i x) q.head 0 (q.count + 1)) v.tail_at
              ∙ ap (items feq_none 32 (set q.slots ((q.head + q.count) % 32) x) q.head 0)
                  (omega arith)
              ∙ items-set_end feq_none 32 q.slots q.head q.count lt v.head_in v.wide x,
        )
]

-- A push_front prepends, unless 32 messages are queued: then it is refused and changes nothing.
pub push_front_refines :
    (q : Queue) (x : Item) → Inv q → Agrees (push_front q x) (list_push_front (contents q) x)
unfolding push_front contents
push_front_refines q x v = elim (Bool-cases (leb fe_q_max q.count)) [
  | inl full ↦ rw (length-contents q, full) (refl, v, refl)
  | inr room ↦
      let lt : q.count < fe_q_max = ground arith in
      let h = (q.head + 32 - 1) % 32 in
      rw (length-contents q, room)
        (
          refl,
          rw room at (push_front-Inv q x v),
          ap (items feq_none 32 (set q.slots h x) h 0) (omega arith)
              ∙ items-set_front feq_none 32 q.slots q.head q.count lt v.head_in v.wide x,
        )
]

-- What is left after the first message is cleared.
popped :
    (q : Queue) (n : ℕ)
    → Inv q
    → q.count ≡ suc n
    → items feq_none 32 (set q.slots q.head feq_none) ((q.head + 1) % 32) 0 n
      ≡ items feq_none 32 q.slots q.head 1 n
popped q n v e =
    items_shift feq_none 32 (set q.slots q.head feq_none) q.head 0 n
    ∙ items-set feq_none 32 q.slots q.head q.head feq_none 1 n
        (λ j lo hi. omega (arith, v.head_in, v.count_in))

first_index : (q : Queue) → Inv q → (q.head + 0) % 32 ≡ q.head
first_index q v = omega (arith, v.head_in)

contents_zero : (q : Queue) → q.count ≡ 0 → contents q ≡ []
unfolding contents items
contents_zero q e = ap (items feq_none 32 q.slots q.head 0) e

contents-suc :
    (q : Queue) (n : ℕ)
    → Inv q
    → q.count ≡ suc n
    → contents q ≡ get_or q.slots q.head feq_none ∷ items feq_none 32 q.slots q.head 1 n
unfolding contents items
contents-suc q n v e =
    ap (items feq_none 32 q.slots q.head 0) e
    ∙ ap (λ i. get_or q.slots i feq_none ∷ items feq_none 32 q.slots q.head 1 n) (first_index q v)

pop_zero : (q : Queue) → q.count ≡ 0 → pop q ≡ (none, q)
unfolding pop
pop_zero q e = ground arith

pop-suc :
    (q : Queue) (n : ℕ)
    → Inv q
    → q.count ≡ suc n
    → ((pop q).0 ≡ some (get_or q.slots q.head feq_none))
      × (contents (pop q).1 ≡ items feq_none 32 q.slots q.head 1 n)
unfolding pop contents
pop-suc q n v e = rw (q_pos q n e) (
  refl,
  ap (items feq_none 32 (set q.slots q.head feq_none) ((q.head + 1) % 32) 0) (omega arith)
      ∙ popped q n v e,
)
  where
    q_pos : (q : Queue) (n : ℕ) → q.count ≡ suc n → (q.count == 0) ≡ false
    q_pos q n e = ground arith

-- A pop takes the oldest message, if there is one.
pub pop_refines : (q : Queue) → Inv q → Agrees (pop q) (list_pop (contents q))
pop_refines q v = go q.count refl
  where
    go : (n : ℕ) → q.count ≡ n → Agrees (pop q) (list_pop (contents q))
    go zero e = rw (pop_zero q e, contents_zero q e) (refl, v, refl)
    go (suc n) e =
        let (item, rest) = pop-suc q n v e in rw (contents-suc q n v e) (item, pop-Inv q v, rest)

-- The calls on the queue.
pub data Op : Type 0 where
  pushes pushes_front : Item → Op
  pops : Op

-- What a call answers: whether a push was accepted, or the message popped.
pub data Reply : Type 0 where
  accepted : Bool → Reply
  taken : Option Item → Reply

pub run : Queue → List Op → List Reply
run q [] = []
run q (pushes x ∷ ops) = let (done, q') = push q x in accepted done ∷ run q' ops
run q (pushes_front x ∷ ops) = let (done, q') = push_front q x in accepted done ∷ run q' ops
run q (pops ∷ ops) = let (item, q') = pop q in taken item ∷ run q' ops

pub list_run : List Item → List Op → List Reply
list_run xs [] = []
list_run xs (pushes x ∷ ops) = let (done, ys) = list_push xs x in accepted done ∷ list_run ys ops
list_run xs (pushes_front x ∷ ops) =
    let (done, ys) = list_push_front xs x in accepted done ∷ list_run ys ops
list_run xs (pops ∷ ops) = let (item, ys) = list_pop xs in taken item ∷ list_run ys ops

-- No sequence of push, pop and push_front tells a well-formed request queue from a list of at most
-- 32 messages.
pub run_refines : (ops : List Op) (q : Queue) → Inv q → run q ops ≡ list_run (contents q) ops
unfolding run list_run
run_refines [] q v = refl
run_refines (pushes x ∷ ops) q v =
    let (done, v', rest) = push_refines q x v in
    ap₂ (λ b r. accepted b ∷ r) done
      (run_refines ops (push q x).1 v' ∙ ap (λ xs. list_run xs ops) rest)
run_refines (pushes_front x ∷ ops) q v =
    let (done, v', rest) = push_front_refines q x v in
    ap₂ (λ b r. accepted b ∷ r) done
      (run_refines ops (push_front q x).1 v' ∙ ap (λ xs. list_run xs ops) rest)
run_refines (pops ∷ ops) q v =
    let (item, v', rest) = pop_refines q v in
    ap₂ (λ o r. taken o ∷ r) item (run_refines ops (pop q).1 v' ∙ ap (λ xs. list_run xs ops) rest)
