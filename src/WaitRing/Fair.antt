-- ===== src/WaitRing/Fair.antt =====
-- A well-formed wait ring is a queue without duplicates: who waits is served in order of arrival.
use pqproxy.Base.{
  ℕ, zero, suc, ◌+◌, ◌%◌, ◌≤◌, ◌<◌, ◌≡◌, refl, sym, ap, ap₂, ◌∙◌, inl, inr, Bool, true, false, not,
  List, [], ◌∷◌, ◌++◌, some, leb, Bool-cases, ◌==◌, ==_iff, if◌then◌else◌, get_or, set, length,
  length-set, get_or-set_self, get_or-set_ne, arith,
}
use pqproxy.Base.Members.{contains, without, length-without-le, without_full}
use pqproxy.Base.Ring.{items, length-items, items_shift, items-set_end}
use pqproxy.WaitRing.{
  Waiters, max_conns, waits_from, append_waiter, waiters_push, others_from, copy_back, compacted,
  waiters_remove, waiters_take,
}

pub record Inv (w : Waiters) : Type 0 where
  pub wide : length w.cells ≡ max_conns
  pub head_in : w.head < max_conns
  pub count_in : w.count ≤ max_conns
  pub tail_at : w.tail ≡ (w.head + w.count) % max_conns

-- Who waits, oldest first.
unfoldable pub waiting : Waiters → List ℕ
waiting w = items 0 max_conns w.cells w.head 0 w.count

pub length-waiting : (w : Waiters) → length (waiting w) ≡ w.count
unfolding waiting
length-waiting w = length-items 0 max_conns w.cells w.head 0 w.count

waits_from-contains :
    (w : Waiters) (slot k n : ℕ)
    → waits_from w slot k n ≡ contains slot (items 0 max_conns w.cells w.head k n)
unfolding waits_from contains items
waits_from-contains w slot k zero = refl
waits_from-contains w slot k (suc n) = ground (arith, waits_from-contains w slot (k + 1) n)

others_from-without :
    (w : Waiters) (slot k n : ℕ)
    → others_from w slot k n ≡ without slot (items 0 max_conns w.cells w.head k n)
unfolding others_from without items
others_from-without w slot k zero = refl
others_from-without w slot k (suc n) = ground (arith, others_from-without w slot (k + 1) n)

length-copy_back :
    (cells : List ℕ) (i : ℕ) (tmp : List ℕ) → length (copy_back cells i tmp) ≡ length cells
unfolding copy_back
length-copy_back cells i [] = refl
length-copy_back cells i (x ∷ tmp) =
    length-copy_back (set cells i x) (i + 1) tmp ∙ length-set cells i x

get_or-copy_back :
    (cells : List ℕ) (i j : ℕ) (tmp : List ℕ)
    → j < i
    → get_or (copy_back cells i tmp) j 0 ≡ get_or cells j 0
unfolding copy_back
get_or-copy_back cells i j [] h = refl
get_or-copy_back cells i j (x ∷ tmp) h =
    get_or-copy_back (set cells i x) (i + 1) j tmp (omega arith)
    ∙ get_or-set_ne cells x 0 (λ e. omega arith)

items-copy_back :
    (cells : List ℕ) (i : ℕ) (tmp : List ℕ)
    → length cells ≡ max_conns
    → i + length tmp ≤ max_conns
    → items 0 max_conns (copy_back cells i tmp) 0 i (length tmp) ≡ tmp
unfolding copy_back items
items-copy_back cells i [] wide h = refl
items-copy_back cells i (x ∷ tmp) wide h =
    ap₂ ◌∷◌
      (ap (λ j. get_or (copy_back (set cells i x) (i + 1) tmp) j 0) (omega arith)
        ∙ get_or-copy_back (set cells i x) (i + 1) i tmp (omega arith)
        ∙ get_or-set_self cells i x 0 (rw wide (omega arith)))
      (items-copy_back (set cells i x) (i + 1) tmp (length-set cells i x ∙ wide) (omega arith))

-- What the queue of waiters answers.
abbrev pub queue_push : Bool → List ℕ → ℕ → Bool × List ℕ
queue_push fair xs x =
    if not fair
    then (false, xs)
    else if contains x xs
    then (true, xs)
    else if leb max_conns (length xs)
    then (false, xs)
    else (true, xs ++ x ∷ [])

abbrev pub Agrees : Waiters → List ℕ → Type 0
Agrees w xs = Inv w × (waiting w ≡ xs)

append-Agrees :
    (w : Waiters) (slot : ℕ)
    → Inv w
    → w.count < max_conns
    → Agrees (append_waiter w slot) (waiting w ++ slot ∷ [])
unfolding append_waiter waiting
append-Agrees w slot v room = (
  ground (arith, length-set w.cells w.tail slot),
  ap (λ i. items 0 256 (set w.cells i slot) w.head 0 (w.count + 1)) v.tail_at
      ∙ ap (items 0 256 (set w.cells ((w.head + w.count) % 256) slot) w.head 0) (omega arith)
      ∙ items-set_end 0 256 w.cells w.head w.count room v.head_in v.wide slot,
)

waits-waiting : (w : Waiters) (slot : ℕ) → waits_from w slot 0 w.count ≡ contains slot (waiting w)
unfolding waiting
waits-waiting w slot = waits_from-contains w slot 0 w.count

others-waiting : (w : Waiters) (slot : ℕ) → others_from w slot 0 w.count ≡ without slot (waiting w)
unfolding waiting
others-waiting w slot = others_from-without w slot 0 w.count

-- In a well-formed wait ring, a frontend that does not wait yet goes to the end of the queue and
-- one that waits keeps its place; without fair scheduling, or with 256 others waiting, the call is
-- refused. The ring stays well formed.
pub waiters_push_refines :
    (fair : Bool) (w : Waiters) (slot : ℕ)
    → Inv w
    → ((waiters_push fair w slot).0 ≡ (queue_push fair (waiting w) slot).0)
      × Agrees (waiters_push fair w slot).1 (queue_push fair (waiting w) slot).1
unfolding waiters_push
waiters_push_refines false w slot v = (refl, (v, refl))
waiters_push_refines true w slot v = elim (Bool-cases (contains slot (waiting w))) [
  | inl old ↦ rw (waits-waiting w slot, old) (refl, (v, refl))
  | inr new ↦ elim (Bool-cases (leb max_conns w.count)) [
    | inl full ↦ rw (waits-waiting w slot, new, length-waiting w, full) (refl, (v, refl))
    | inr room ↦
        rw (waits-waiting w slot, new, length-waiting w, room)
          (refl, append-Agrees w slot v (ground arith))
  ]
]

compacted-Agrees :
    (w : Waiters) (tmp : List ℕ)
    → Inv w
    → length tmp ≤ w.count
    → (length tmp ≡ w.count → waiting w ≡ tmp)
    → Agrees (compacted w tmp) tmp
unfolding compacted waiting
compacted-Agrees w tmp v le same = elim (Bool-cases (length tmp == w.count)) [
  | inl e ↦ rw e (v, same (ground arith))
  | inr e ↦ rw e (
    record {
      wide = length-copy_back w.cells 0 tmp ∙ v.wide;
      head_in = omega arith;
      count_in = omega (arith, v.count_in);
      tail_at = ap (λ n. n % 256) (omega arith);
    },
    items-copy_back w.cells 0 tmp v.wide (omega (arith, v.count_in)),
  )
]

-- Removing a frontend from a well-formed wait ring leaves the others waiting in their order, in a
-- well-formed ring.
pub waiters_remove_refines :
    (w : Waiters) (slot : ℕ) → Inv w → Agrees (waiters_remove w slot) (without slot (waiting w))
unfolding waiters_remove
waiters_remove_refines w slot v = elim (Bool-cases (w.count == 0)) [
  | inl e ↦ rw e (
    v,
    sym (
        without_full slot (waiting w) (
          omega
            (arith, length-without-le slot (waiting w), length-waiting w, (==_iff w.count 0).0 e))),
  )
  | inr e ↦
      rw (e, others-waiting w slot)
        (compacted-Agrees w (without slot (waiting w)) v
          (omega (arith, length-without-le slot (waiting w), length-waiting w))
          (λ n. sym (without_full slot (waiting w) (omega (arith, length-waiting w)))))
]

waiting-suc :
    (w : Waiters) (n : ℕ)
    → Inv w
    → w.count ≡ suc n
    → waiting w ≡ get_or w.cells w.head 0 ∷ items 0 max_conns w.cells w.head 1 n
unfolding waiting items
waiting-suc w n v e =
    ap (items 0 256 w.cells w.head 0) e
    ∙ ap (λ i. get_or w.cells i 0 ∷ items 0 256 w.cells w.head 1 n) (omega (arith, v.head_in))

take_suc :
    (w : Waiters) (n : ℕ)
    → Inv w
    → w.count ≡ suc n
    → ((waiters_take w).0 ≡ some (get_or w.cells w.head 0))
      × Agrees (waiters_take w).1 (items 0 max_conns w.cells w.head 1 n)
unfolding waiters_take waiting
take_suc w n v e =
    let busy : (w.count == 0) ≡ false = ground arith in
    rw busy (
      refl,
      (
        record {
          wide = v.wide;
          head_in = omega arith;
          count_in = omega (arith, v.count_in);
          tail_at = omega (arith, v.tail_at, v.head_in, v.count_in);
        },
        ap (items 0 256 w.cells ((w.head + 1) % 256) 0) (omega arith)
            ∙ items_shift 0 256 w.cells w.head 0 n,
      ),
    )

-- From a well-formed wait ring in which somebody waits, the frontend that has waited longest is
-- taken, and the others keep their order in a well-formed ring.
pub waiters_take_refines :
    (w : Waiters) (x : ℕ) (xs : List ℕ)
    → Inv w
    → waiting w ≡ x ∷ xs
    → ((waiters_take w).0 ≡ some x) × Agrees (waiters_take w).1 xs
waiters_take_refines w x xs v e =
    let n : w.count ≡ suc (length xs) = sym (length-waiting w) ∙ ap length e in
    let (taken, left) = take_suc w (length xs) v n in
    let same = sym (waiting-suc w (length xs) v n) ∙ e in
    (taken ∙ ground (arith, same), (left.0, left.1 ∙ ground (arith, same)))
