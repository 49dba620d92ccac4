-- ===== src/Examples/Queues.antt =====
-- The queues: a request queue that a client fills and the loop drains, and a ring of three waiters.
use pqproxy.Base.{◌≡◌, refl, true, List, [], ◌∷◌, ◌++◌, some, codes, replicate, arith}
use pqproxy.Base.Members.{without}
use pqproxy.Base.Ring.{items}
use pqproxy.FeQueue.{feq_sync, feq_execute, feq_query, clear_all}
use pqproxy.FeQueue.Fifo.{
  Op, pushes, pushes_front, pops, run, list_run, contents, clear_all-Inv, run_refines,
}
use pqproxy.WaitRing.{Waiters, waiters_push, waiters_remove, waiters_take}
use pqproxy.WaitRing.Fair.{
  Inv, waiting, Agrees, queue_push, waiters_push_refines, waiters_remove_refines,
  waiters_take_refines,
}

abbrev ops : List Op
ops =
    pushes feq_execute
    ∷ pushes (feq_query (codes "SELECT 1"))
    ∷ pops
    ∷ pushes_front feq_sync
    ∷ pops
    ∷ pops
    ∷ pops
    ∷ []

run_refines_example : run clear_all ops ≡ list_run (contents clear_all) ops
run_refines_example = run_refines ops clear_all clear_all-Inv.0

-- The frontends 7, 5 and 9 wait, across the end of the ring.
abbrev three : Waiters
three = record { cells = 9 ∷ replicate 253 0 ++ 7 ∷ 5 ∷ []; head = 254; tail = 1; count = 3 }

three-Inv : Inv three
three-Inv = record { wide = refl; head_in = omega arith; count_in = omega arith; tail_at = refl }

three-waiting : waiting three ≡ 7 ∷ 5 ∷ 9 ∷ []
unfolding waiting items
three-waiting = refl

waiters_push_refines_example :
    ((waiters_push true three 4).0 ≡ (queue_push true (waiting three) 4).0)
    × Agrees (waiters_push true three 4).1 (queue_push true (waiting three) 4).1
waiters_push_refines_example = waiters_push_refines true three 4 three-Inv

waiters_remove_refines_example : Agrees (waiters_remove three 5) (without 5 (waiting three))
waiters_remove_refines_example = waiters_remove_refines three 5 three-Inv

waiters_take_refines_example :
    ((waiters_take three).0 ≡ some 7) × Agrees (waiters_take three).1 (5 ∷ 9 ∷ [])
waiters_take_refines_example = waiters_take_refines three 7 (5 ∷ 9 ∷ []) three-Inv three-waiting
