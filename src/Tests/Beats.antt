-- ===== src/Tests/Beats.antt =====
-- Heartbeats and their timers.
use postgres_pipeline_orches.Common.{refl, inl, inr, none, some, List, [], ◌∷◌, arith, Has}
use postgres_pipeline_orches.Database.{Db, set_running}
use postgres_pipeline_orches.JobQueue.{QueueCall, claim, heartbeat, reclaim, calls}
use postgres_pipeline_orches.JobQueue.Protocol.{IsSound}
use postgres_pipeline_orches.JobQueue.Beating.{beaten, last_beat, beating_job_kept}
use postgres_pipeline_orches.Worker.Heartbeat.{
  HeartbeatService, on_module_init, start_loop, stop_loop, timer_calls,
}
use postgres_pipeline_orches.Worker.Timers.{HasOneLoop, timer_calls-HasOneLoop}
use postgres_pipeline_orches.Tests.Samples.{worker_1, nothing_locked, test_job, run_7, building}

abbrev started : Db
started = record { jobs = building ∷ test_job ∷ []; runs = set_running 200 run_7 ∷ [] }

started-IsSound : IsSound started.jobs
started-IsSound = record {
  unique = ground arith;
  gated = λ j prev m n r. elim m [
    | inl e ↦ ground arith
    | inr k ↦ elim k [ inl e ↦ ground arith | inr l ↦ absurd l ]
  ];
}

abbrev beats : List QueueCall
beats =
    reclaim 30 1000000
    ∷ heartbeat 1 20000000
    ∷ claim nothing_locked worker_1 30000000
    ∷ reclaim 30 45000000
    ∷ []

beating_job_kept_example : Has (beaten (last_beat 1 200 beats) building) (calls beats started).jobs
beating_job_kept_example =
    beating_job_kept beats started building 200 (tt, (tt, (tt, (tt, tt)))) started-IsSound
      (inl refl) refl (omega arith, (tt, (tt, (omega arith, tt))))

abbrev idle_service : HeartbeatService
idle_service = record { reclaim_timer = none; live = [] }

timer_calls-HasOneLoop_example : HasOneLoop (
    timer_calls
      (on_module_init 1 ∷ start_loop 2 (some 5000) none ∷ stop_loop ∷ on_module_init 3 ∷ [])
      idle_service)
timer_calls-HasOneLoop_example =
    timer_calls-HasOneLoop
      (on_module_init 1 ∷ start_loop 2 (some 5000) none ∷ stop_loop ∷ on_module_init 3 ∷ [])
      idle_service refl
