-- ===== src/Worker/Timers.antt =====
-- How many reclaim loops a process has.
use postgres_pipeline_orches.Common.{
  ℕ, ◌≡◌, refl, ap, Option, none, some, List, [], ◌∷◌, arith, or_else,
}
use postgres_pipeline_orches.Worker.Heartbeat.{
  Interval, HeartbeatService, TimerCall, on_module_init, on_module_destroy, start_loop, stop_loop,
  timer_call, timer_calls, start_reclaim_loop, stop_reclaim_loop, default_timeout_seconds,
  default_reclaim_interval_ms,
}

-- The interval that the field `reclaimTimer` has is the only one.
abbrev pub IsOnly : Option ℕ → List Interval → Type 0
IsOnly none live = live ≡ []
IsOnly (some handle) live = (i : Interval) × (i.handle ≡ handle) × (live ≡ i ∷ [])

abbrev pub HasOneLoop : HeartbeatService → Type 0
HasOneLoop s = IsOnly s.reclaim_timer s.live

stopped :
    (t : Option ℕ) (live : List Interval)
    → IsOnly t live
    → (stop_reclaim_loop (record { reclaim_timer = t; live = live })).live ≡ []
unfolding stop_reclaim_loop
stopped none live h = h
stopped (some handle) live (i, e, l) = rw l (ground (arith, e))

stop-HasOneLoop :
    (t : Option ℕ) (live : List Interval)
    → IsOnly t live
    → HasOneLoop (stop_reclaim_loop (record { reclaim_timer = t; live = live }))
unfolding stop_reclaim_loop
stop-HasOneLoop none live h = h
stop-HasOneLoop (some handle) live (i, e, l) = rw l (ground (arith, e))

start-HasOneLoop :
    (handle : ℕ) (a b : Option ℕ) (s : HeartbeatService)
    → HasOneLoop s
    → HasOneLoop (start_reclaim_loop handle a b s)
unfolding start_reclaim_loop
start-HasOneLoop handle a b s h =
    let interval : Interval = record {
      handle = handle;
      interval_ms = or_else a default_reclaim_interval_ms;
      timeout_seconds = or_else b default_timeout_seconds;
    } in
    (interval, refl, ap (λ live. interval ∷ live) (stopped s.reclaim_timer s.live h))

timer_call-HasOneLoop :
    (c : TimerCall) (s : HeartbeatService) → HasOneLoop s → HasOneLoop (timer_call c s)
unfolding timer_call
timer_call-HasOneLoop (on_module_init handle) s h =
    start-HasOneLoop handle (some default_reclaim_interval_ms) (some default_timeout_seconds) s h
timer_call-HasOneLoop on_module_destroy s h = stop-HasOneLoop s.reclaim_timer s.live h
timer_call-HasOneLoop (start_loop handle a b) s h = start-HasOneLoop handle a b s h
timer_call-HasOneLoop stop_loop s h = stop-HasOneLoop s.reclaim_timer s.live h

-- From a service with no loop, or with the one that its field names, any calls lead to such a service:
-- there is never a second reclaim loop, and none that `stopReclaimLoop` misses.
pub timer_calls-HasOneLoop :
    (cs : List TimerCall) (s : HeartbeatService) → HasOneLoop s → HasOneLoop (timer_calls cs s)
unfolding timer_calls
timer_calls-HasOneLoop [] s h = h
timer_calls-HasOneLoop (c ∷ cs) s h =
    timer_calls-HasOneLoop cs (timer_call c s) (timer_call-HasOneLoop c s h)
