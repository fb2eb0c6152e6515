-- ===== src/Worker/Heartbeat.antt =====
-- `src/worker/heartbeat.service.ts`: the heartbeat of a job, and the timer of the reclaims.
use postgres_pipeline_orches.Common.{
  ℕ, not, Option, none, some, List, [], ◌∷◌, ◌==◌, select, or_else,
}
use postgres_pipeline_orches.Database.{Db}
use postgres_pipeline_orches.JobQueue.{update_heartbeat, reclaim_stuck_jobs}

abbrev pub default_timeout_seconds : ℕ
default_timeout_seconds = 30

abbrev pub default_reclaim_interval_ms : ℕ
default_reclaim_interval_ms = 15000

-- An interval that `setInterval` has made and nobody has cleared.
pub record Interval : Type 0 where
  pub handle : ℕ
  pub interval_ms : ℕ
  pub timeout_seconds : ℕ

-- `live` has the intervals of the process.
pub record HeartbeatService : Type 0 where
  pub reclaim_timer : Option ℕ
  pub live : List Interval

abbrev pub clear_interval : ℕ → List Interval → List Interval
clear_interval handle = select (λ i. not (i.handle == handle))

abbrev pub stop_timer : Option ℕ → HeartbeatService → HeartbeatService
stop_timer none s = s
stop_timer (some handle) s = record { reclaim_timer = none; live = clear_interval handle s.live }

unfoldable pub stop_reclaim_loop : HeartbeatService → HeartbeatService
stop_reclaim_loop s = stop_timer s.reclaim_timer s

-- `handle` is what `setInterval` gives.
unfoldable pub start_reclaim_loop : ℕ → Option ℕ → Option ℕ → HeartbeatService → HeartbeatService
unfolding stop_reclaim_loop
start_reclaim_loop handle interval_ms timeout_seconds s =
    let interval : Interval = record {
      handle = handle;
      interval_ms = or_else interval_ms default_reclaim_interval_ms;
      timeout_seconds = or_else timeout_seconds default_timeout_seconds;
    } in
    record { reclaim_timer = some handle; live = interval ∷ (stop_reclaim_loop s).live }

pub data TimerCall : Type 0 where
  on_module_init : (handle : ℕ) → TimerCall
  on_module_destroy : TimerCall
  start_loop : (handle : ℕ) → (interval_ms timeout_seconds : Option ℕ) → TimerCall
  stop_loop : TimerCall

unfoldable pub timer_call : TimerCall → HeartbeatService → HeartbeatService
unfolding start_reclaim_loop stop_reclaim_loop
timer_call (on_module_init handle) s =
    start_reclaim_loop handle (some default_reclaim_interval_ms) (some default_timeout_seconds) s
timer_call on_module_destroy s = stop_reclaim_loop s
timer_call (start_loop handle interval_ms timeout_seconds) s =
    start_reclaim_loop handle interval_ms timeout_seconds s
timer_call stop_loop s = stop_reclaim_loop s

unfoldable pub timer_calls : List TimerCall → HeartbeatService → HeartbeatService
timer_calls [] s = s
timer_calls (c ∷ cs) s = timer_calls cs (timer_call c s)

-- `tick`, and what an interval does when it is due.
abbrev pub tick : ℕ → ℕ → Db → Db
tick job_id now db = update_heartbeat job_id now db

abbrev pub run_reclaim_once : Option ℕ → ℕ → Db → Db
run_reclaim_once timeout_seconds now db =
    reclaim_stuck_jobs (or_else timeout_seconds default_timeout_seconds) now db
