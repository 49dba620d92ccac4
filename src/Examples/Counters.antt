-- ===== src/Examples/Counters.antt =====
-- The metrics of a few calls.
use pqproxy.Base.{◌≡◌, refl, List, [], ◌∷◌}
use pqproxy.Metrics.{
  Metrics, Note, inc_accepts, note_fe_q_depth, note_backend_wait_ns, note_wait, apply,
}
use pqproxy.Metrics.Totals.{apply_all, Told, apply_all-Told}

abbrev zeros : Metrics
zeros = record {
  accepts = 0;
  frontend_closes = 0;
  backend_pipelines_ok = 0;
  backend_pipelines_fail = 0;
  backend_wait_ns_total = 0;
  backend_wait_ns_max = 0;
  backend_wait_samples = 0;
  fe_queue_enqueued = 0;
  fe_queue_full = 0;
  fe_queue_high_water = 0;
  reconnects = 0;
  maintain_ticks = 0;
  maintain_rewarmed = 0;
  fair_waits = 0;
  fair_schedules = 0;
  pool_waiters = 0;
  live_backends = 0;
  active_frontends = 0;
}

abbrev some_notes : List Note
some_notes =
    inc_accepts
    ∷ note_fe_q_depth 3
    ∷ note_backend_wait_ns 500
    ∷ note_fe_q_depth 1
    ∷ note_backend_wait_ns 700
    ∷ []

some_notes-longest : (apply_all some_notes zeros).backend_wait_ns_max ≡ 700
unfolding apply note_wait
some_notes-longest = refl

apply_all-Told_example : Told some_notes zeros (apply_all some_notes zeros)
apply_all-Told_example = apply_all-Told some_notes zeros
