-- ===== src/Metrics/Totals.antt =====
-- What the metrics say of the calls that were made.
use pqproxy.Base.{
  ℕ, suc, ◌+◌, ◌%◌, ◌^◌, ◌≡◌, refl, ap, ◌∙◌, max, List, [], ◌∷◌, ltb, if◌then◌else◌, arith,
}
use pqproxy.Metrics.{
  Metrics, Note, note_fe_q_depth, note_backend_wait_ns, inc_accepts, inc_closes, inc_be_ok,
  inc_be_fail, inc_fe_q_enq, inc_fe_q_full, inc_fair_waits, inc_fair_schedules, inc_reconnects,
  inc_maintain, set_pool_waiters, set_gauges, note_wait, apply,
}

abbrev pub apply_all : List Note → Metrics → Metrics
apply_all [] m = m
apply_all (n ∷ ns) m = apply_all ns (apply n m)

-- The waits that were noted, and the depths.
abbrev pub waits : List Note → List ℕ
waits [] = []
waits (note_backend_wait_ns ns ∷ notes) = ns ∷ waits notes
waits (_ ∷ notes) = waits notes

abbrev pub depths : List Note → List ℕ
depths [] = []
depths (note_fe_q_depth d ∷ notes) = d ∷ depths notes
depths (_ ∷ notes) = depths notes

abbrev pub sum : List ℕ → ℕ
sum [] = 0
sum (n ∷ ns) = n + sum ns

abbrev pub count : List ℕ → ℕ
count [] = 0
count (n ∷ ns) = suc (count ns)

abbrev pub highest : ℕ → List ℕ → ℕ
highest k [] = k
highest k (n ∷ ns) = highest (max k n) ns

-- The metrics after the calls: the waits' sum and number, up to the width of a counter, the longest
-- wait and the deepest queue.
abbrev pub Told : List Note → Metrics → Metrics → Type 0
Told notes m m' =
    (m'.backend_wait_ns_total % 2 ^ 64 ≡ (m.backend_wait_ns_total + sum (waits notes)) % 2 ^ 64)
    × (m'.backend_wait_samples % 2 ^ 64 ≡ (m.backend_wait_samples + count (waits notes)) % 2 ^ 64)
    × (m'.backend_wait_ns_max ≡ highest m.backend_wait_ns_max (waits notes))
    × (m'.fe_queue_high_water ≡ highest m.fe_queue_high_water (depths notes))

larger : (k n : ℕ) → (if ltb k n then n else k) ≡ max k n
larger k n = ground arith

-- After any sequence of calls, the total and the number of backend waits are those before plus
-- those noted, up to 64 bits, the longest wait is the longest noted, and the queue's high-water
-- mark is the deepest noted, each with the value before.
pub apply_all-Told : (notes : List Note) (m : Metrics) → Told notes m (apply_all notes m)
unfolding apply note_wait
apply_all-Told [] m =
    (ap (λ n. n % 2 ^ 64) (omega arith), ap (λ n. n % 2 ^ 64) (omega arith), refl, refl)
apply_all-Told (note_backend_wait_ns ns ∷ notes) m =
    let (total, samples, longest, deepest) =
      apply_all-Told notes (apply (note_backend_wait_ns ns) m) in
    (
      omega (arith, total),
      omega (arith, samples),
      longest ∙ ap (λ k. highest k (waits notes)) (larger m.backend_wait_ns_max ns),
      deepest,
    )
apply_all-Told (note_fe_q_depth d ∷ notes) m =
    let (total, samples, longest, deepest) = apply_all-Told notes (apply (note_fe_q_depth d) m) in
    (
      total,
      samples,
      longest,
      deepest ∙ ap (λ k. highest k (depths notes)) (larger m.fe_queue_high_water d),
    )
apply_all-Told (inc_accepts ∷ notes) m = apply_all-Told notes (apply inc_accepts m)
apply_all-Told (inc_closes ∷ notes) m = apply_all-Told notes (apply inc_closes m)
apply_all-Told (inc_be_ok ∷ notes) m = apply_all-Told notes (apply inc_be_ok m)
apply_all-Told (inc_be_fail ∷ notes) m = apply_all-Told notes (apply inc_be_fail m)
apply_all-Told (inc_fe_q_enq ∷ notes) m = apply_all-Told notes (apply inc_fe_q_enq m)
apply_all-Told (inc_fe_q_full ∷ notes) m = apply_all-Told notes (apply inc_fe_q_full m)
apply_all-Told (inc_fair_waits ∷ notes) m = apply_all-Told notes (apply inc_fair_waits m)
apply_all-Told (inc_fair_schedules ∷ notes) m = apply_all-Told notes (apply inc_fair_schedules m)
apply_all-Told (inc_reconnects n ∷ notes) m = apply_all-Told notes (apply (inc_reconnects n) m)
apply_all-Told (inc_maintain n ∷ notes) m = apply_all-Told notes (apply (inc_maintain n) m)
apply_all-Told (set_pool_waiters n ∷ notes) m = apply_all-Told notes (apply (set_pool_waiters n) m)
apply_all-Told (set_gauges n k ∷ notes) m = apply_all-Told notes (apply (set_gauges n k) m)
