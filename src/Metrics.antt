-- ===== src/Metrics.antt =====
-- src/metrics.c, the counters, as the functions that change them. Counters have 64 bits.
pub mod Totals
use pqproxy.Base.{ℕ, ◌+◌, ◌%◌, ◌^◌, Bool, true, false, ltb, if◌then◌else◌}

-- pqproxy_metrics_t
pub record Metrics : Type 0 where
  pub accepts : ℕ
  pub frontend_closes : ℕ
  pub backend_pipelines_ok : ℕ
  pub backend_pipelines_fail : ℕ
  pub backend_wait_ns_total : ℕ
  pub backend_wait_ns_max : ℕ
  pub backend_wait_samples : ℕ
  pub fe_queue_enqueued : ℕ
  pub fe_queue_full : ℕ
  pub fe_queue_high_water : ℕ
  pub reconnects : ℕ
  pub maintain_ticks : ℕ
  pub maintain_rewarmed : ℕ
  pub fair_waits : ℕ
  pub fair_schedules : ℕ
  pub pool_waiters : ℕ
  pub live_backends : ℕ
  pub active_frontends : ℕ

-- `counter += n`
abbrev pub plus : ℕ → ℕ → ℕ
plus counter n = (counter + n) % 2 ^ 64

-- The calls that change the metrics.
pub data Note : Type 0 where
  inc_accepts inc_closes inc_be_ok inc_be_fail inc_fe_q_enq inc_fe_q_full inc_fair_waits
        inc_fair_schedules :
      Note
  note_fe_q_depth inc_reconnects inc_maintain note_backend_wait_ns set_pool_waiters : ℕ → Note
  set_gauges : ℕ → ℕ → Note

unfoldable pub note_wait : ℕ → Metrics → Metrics
note_wait ns m = record m {
  backend_wait_ns_total = plus m.backend_wait_ns_total ns;
  backend_wait_samples = plus m.backend_wait_samples 1;
  backend_wait_ns_max = if ltb m.backend_wait_ns_max ns then ns else m.backend_wait_ns_max;
}

unfoldable pub apply : Note → Metrics → Metrics
unfolding note_wait
apply inc_accepts m = record m { accepts = plus m.accepts 1 }
apply inc_closes m = record m { frontend_closes = plus m.frontend_closes 1 }
apply inc_be_ok m = record m { backend_pipelines_ok = plus m.backend_pipelines_ok 1 }
apply inc_be_fail m = record m { backend_pipelines_fail = plus m.backend_pipelines_fail 1 }
apply inc_fe_q_enq m = record m { fe_queue_enqueued = plus m.fe_queue_enqueued 1 }
apply inc_fe_q_full m = record m { fe_queue_full = plus m.fe_queue_full 1 }
apply inc_fair_waits m = record m { fair_waits = plus m.fair_waits 1 }
apply inc_fair_schedules m = record m { fair_schedules = plus m.fair_schedules 1 }
apply (note_fe_q_depth depth) m = record m {
  fe_queue_high_water = if ltb m.fe_queue_high_water depth then depth else m.fe_queue_high_water;
}
apply (inc_reconnects n) m = record m { reconnects = plus m.reconnects n }
apply (inc_maintain rewarmed) m = record m {
  maintain_ticks = plus m.maintain_ticks 1;
  maintain_rewarmed = plus m.maintain_rewarmed rewarmed;
}
apply (note_backend_wait_ns ns) m = note_wait ns m
apply (set_pool_waiters n) m = record m { pool_waiters = n }
apply (set_gauges live_be active_fe) m = record m {
  live_backends = live_be;
  active_frontends = active_fe;
}
