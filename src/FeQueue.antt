-- ===== src/FeQueue.antt =====
-- src/iouring_loop.c, the frontend request queue: 32 slots that hold the client's messages while its
-- connection waits for a backend. The metrics that the calls bump are in Metrics.
pub mod Fifo
use pqproxy.Base.{
  ℕ, ◌+◌, ◌-◌, ◌%◌, Bool, true, false, List, [], ◌∷◌, Option, none, some, ℤ, Str, leb, ◌==◌,
  if◌then◌else◌, get_or, set, replicate, take, length, min,
}
use pqproxy.Pique.{Parse}
use pqproxy.Pique.Wire.{Param, Bind}

-- feq_item_t, one constructor for each feq_kind_t. A queued Bind owns its parameters.
pub data Item : Type 0 where
  feq_none feq_execute feq_sync feq_terminate : Item
  feq_parse : Parse → Item
  feq_bind : Bind → Item
  feq_query : Str → Item

-- The fields fe_q, fe_q_head, fe_q_tail and fe_q_count of conn_t.
pub record Queue : Type 0 where
  pub slots : List Item
  pub head : ℕ
  pub tail : ℕ
  pub count : ℕ

abbrev pub fe_q_max : ℕ
fe_q_max = 32

unfoldable pub clear_all : Queue
clear_all = record { slots = replicate fe_q_max feq_none; head = 0; tail = 0; count = 0 }

-- Whether the call returned 0, and the queue afterwards.
unfoldable pub push : Queue → Item → Bool × Queue
push q item = if leb fe_q_max q.count then (false, q) else (
  true,
  record q { slots = set q.slots q.tail item; tail = (q.tail + 1) % fe_q_max; count = q.count + 1 },
)

unfoldable pub pop : Queue → Option Item × Queue
pop q = if q.count == 0 then (none, q) else (
  some (get_or q.slots q.head feq_none),
  record q {
    slots = set q.slots q.head feq_none;
    head = (q.head + 1) % fe_q_max;
    count = q.count - 1;
  },
)

-- How drain_fe_queue puts back a Bind that found no backend.
unfoldable pub push_front : Queue → Item → Bool × Queue
push_front q item = if leb fe_q_max q.count then (false, q) else (
  true,
  (let head = (q.head + fe_q_max - 1) % fe_q_max in
      record q { slots = set q.slots head item; head = head; count = q.count + 1 }),
)
