-- ===== src/WaitRing.antt =====
-- src/iouring_loop.c, the fair wait ring: the frontend slots that wait for a free backend, oldest
-- first, in 256 cells.
pub mod Fair
use pqproxy.Base.{
  ℕ, zero, suc, ◌+◌, ◌-◌, ◌%◌, Bool, true, false, not, List, [], ◌∷◌, Option, none, some, leb, ◌==◌,
  if◌then◌else◌, get_or, set, length,
}

-- The fields waiters, wait_head, wait_tail and wait_count of server_t.
pub record Waiters : Type 0 where
  pub cells : List ℕ
  pub head : ℕ
  pub tail : ℕ
  pub count : ℕ

abbrev pub max_conns : ℕ
max_conns = 256

abbrev pub cell : Waiters → ℕ → ℕ
cell w k = get_or w.cells ((w.head + k) % max_conns) 0

-- The loop `already waiting?`, from offset `k` on, for `n` rounds.
waits_from : Waiters → ℕ → ℕ → ℕ → Bool
waits_from w slot k zero = false
waits_from w slot k (suc n) =
    let rest = waits_from w slot (k + 1) n in if cell w k == slot then true else rest

append_waiter : Waiters → ℕ → Waiters
append_waiter w slot = record w {
  cells = set w.cells w.tail slot;
  tail = (w.tail + 1) % max_conns;
  count = w.count + 1;
}

-- waiters_push: whether it returned 0, and the ring afterwards. `fair` is srv->fair_schedule.
unfoldable pub waiters_push : Bool → Waiters → ℕ → Bool × Waiters
unfolding waits_from append_waiter
waiters_push fair w slot =
    if not fair
    then (false, w)
    else if waits_from w slot 0 w.count
    then (true, w)
    else if leb max_conns w.count
    then (false, w)
    else (true, append_waiter w slot)

-- The waiters other than `slot`, into `tmp`.
others_from : Waiters → ℕ → ℕ → ℕ → List ℕ
others_from w slot k zero = []
others_from w slot k (suc n) =
    let rest = others_from w slot (k + 1) n in if cell w k == slot then rest else cell w k ∷ rest

-- `for (i = 0; i < n; i++) srv->waiters[i] = tmp[i];`
copy_back : List ℕ → ℕ → List ℕ → List ℕ
copy_back cells i [] = cells
copy_back cells i (x ∷ tmp) = copy_back (set cells i x) (i + 1) tmp

compacted : Waiters → List ℕ → Waiters
unfolding copy_back
compacted w tmp = if length tmp == w.count then w else record {
  cells = copy_back w.cells 0 tmp;
  head = 0;
  tail = length tmp % max_conns;
  count = length tmp;
}

unfoldable pub waiters_remove : Waiters → ℕ → Waiters
unfolding others_from compacted
waiters_remove w slot = if w.count == 0 then w else compacted w (others_from w slot 0 w.count)

-- How fair_schedule_waiters takes the oldest waiter.
unfoldable pub waiters_take : Waiters → Option ℕ × Waiters
waiters_take w = if w.count == 0 then (none, w) else (
  some (get_or w.cells w.head 0),
  record w { head = (w.head + 1) % max_conns; count = w.count - 1 },
)
