-- ===== src/Tests/Queue.antt =====
-- The job queue on two jobs of one run.
use postgres_pipeline_orches.Common.{
  ◌≡◌, ◌≢◌, refl, sym, subst, ◌⊎◌, inl, inr, ◌≤◌, false, not, ◌&&◌, ◌||◌, none, some, List, [], ◌∷◌,
  arith, ◌==◌, any, Has,
}
use postgres_pipeline_orches.Database.{
  Status, pending, success, Job, PipelineRun, Db, set_running, sync_run, sync_runs, by_count,
}
use postgres_pipeline_orches.JobQueue.{
  QueueCall, insert, claim, heartbeat, complete, fail, call, calls, claimable, next_job,
  claim_query, claim_next_job, new_row, set_failed, mark_failed, reclaim_stuck_jobs, earlier,
  before, set_heartbeat, update_heartbeat, mark_completed, least, update_jobs,
}
use postgres_pipeline_orches.JobQueue.Rows.{UniqueIds}
use postgres_pipeline_orches.JobQueue.Claiming.{IsNext, Took, claim_query_lem}
use postgres_pipeline_orches.JobQueue.Gate.{IsGated}
use postgres_pipeline_orches.JobQueue.Protocol.{Allowed, AllowedAll, IsSound, calls-IsSound}
use postgres_pipeline_orches.JobQueue.Attempts.{attempts, attempts_bounded}
use postgres_pipeline_orches.JobQueue.RunHistory.{AllSynced, calls-AllSynced}
use postgres_pipeline_orches.JobQueue.Concurrent.{also_locked, claims_apart}
use postgres_pipeline_orches.JobQueue.Driver.{claim_next_job_by_count}
use postgres_pipeline_orches.JobQueue.Anomalies.{
  exhausted_job_stays, late_failure_revives, overtaken,
}
use postgres_pipeline_orches.Tests.Samples.{
  worker_1, nothing_locked, build_step, test_step, build_job, test_job, run_7, queued, building,
}

-- The whole life of the two jobs: claim, fail, claim, complete, claim, complete.
abbrev life : List QueueCall
life =
    claim nothing_locked worker_1 200
    ∷ heartbeat 1 210
    ∷ fail 1 2 220
    ∷ claim nothing_locked worker_1 230
    ∷ complete 1 0 240
    ∷ claim nothing_locked worker_1 250
    ∷ complete 2 0 260
    ∷ []

statuses : List Job → List Status
statuses [] = []
statuses (j ∷ js) = j.status ∷ statuses js

life_ends : statuses (calls life queued).jobs ≡ success ∷ success ∷ []
unfolding statuses calls call claim_query least mark_completed mark_failed update_heartbeat
    claimable update_jobs next_job
life_ends = refl

pub queued-UniqueIds : UniqueIds queued.jobs
queued-UniqueIds = ground arith

claim_query_lem_example :
    ((any queued.jobs (λ a. claimable queued.jobs a && not (nothing_locked a.id)) ≡ false)
      × (claim_query nothing_locked worker_1 200 queued ≡ (queued, [])))
    ⊎ ((k : Job) × IsNext nothing_locked queued.jobs k × Took nothing_locked worker_1 200 queued k)
claim_query_lem_example = claim_query_lem nothing_locked worker_1 200 queued queued-UniqueIds

pub queued-IsSound : IsSound queued.jobs
queued-IsSound = record {
  unique = queued-UniqueIds;
  gated = λ j prev m n r. elim m [
    | inl e ↦ ground arith
    | inr k ↦ elim k [ inl e ↦ ground arith | inr l ↦ absurd l ]
  ];
}

-- The table when the failure is reported.
abbrev running_again : Db
running_again = record {
  jobs = set_heartbeat 210 building ∷ test_job ∷ [];
  runs = set_running 200 run_7 ∷ [];
}

life_begins :
    calls (claim nothing_locked worker_1 200 ∷ heartbeat 1 210 ∷ []) queued ≡ running_again
unfolding calls call claim_query least update_heartbeat claimable sync_runs sync_run
life_begins = refl

failure-Allowed : Allowed running_again.jobs (fail 1 2 220)
failure-Allowed j m e = elim m [
  | inl q ↦ ground arith
  | inr k ↦ elim k [ inl q ↦ ground arith | inr l ↦ absurd l ]
]

life-AllowedAll : AllowedAll queued life
unfolding calls call
life-AllowedAll =
    let third =
      subst (λ (db : Db). Allowed db.jobs (fail 1 2 220)) (sym life_begins) failure-Allowed in
    (tt, (tt, (third, (tt, (tt, (tt, (tt, tt)))))))

calls-IsSound_example : IsSound (calls life queued).jobs
calls-IsSound_example = calls-IsSound life queued life-AllowedAll queued-IsSound

pub queued-AllSynced : AllSynced queued
queued-AllSynced =
    (record { while_running = λ h. ground arith; when_ended = λ h u. ground arith }, tt)

calls-AllSynced_example : AllSynced (calls life queued)
calls-AllSynced_example = calls-AllSynced life queued queued-AllSynced

attempts_bounded_example : attempts 1 life queued ≤ 4
attempts_bounded_example =
    attempts_bounded life queued build_job life-AllowedAll queued-IsSound (inl refl)
      (λ u. ground arith, ground arith)

-- The job is claimed twice in that history.
attempts_are : attempts 1 life queued ≡ 2
unfolding attempts calls call claim_query least mark_completed mark_failed update_heartbeat
    claimable next_job update_jobs
attempts_are = refl

-- Two jobs of one step may run side by side.
abbrev lint_job : Job
lint_job = new_row 3 100 build_step

first_pick : next_job nothing_locked (build_job ∷ lint_job ∷ []) ≡ some build_job
unfolding next_job least claimable before
first_pick = refl

second_pick : next_job (also_locked nothing_locked 1) (build_job ∷ lint_job ∷ []) ≡ some lint_job
unfolding next_job least claimable before
second_pick = refl

claims_apart_example :
    (lint_job.id ≢ build_job.id)
    × ((lint_job.pipeline_run_id == build_job.pipeline_run_id
          && (earlier lint_job build_job || earlier build_job lint_job))
        ≡ false)
claims_apart_example =
    claims_apart nothing_locked (build_job ∷ lint_job ∷ []) build_job lint_job first_pick
      second_pick

claim_next_job_by_count_example :
    (claim_next_job by_count nothing_locked worker_1 200 queued).1
    ≡ some (record { id = none; command = []; stage = []; pipeline_run_id = none })
claim_next_job_by_count_example =
    claim_next_job_by_count by_count nothing_locked worker_1 200 queued (λ rs. refl)

-- The build job at its last attempt, with a worker that died.
abbrev stale : Job
stale = record building { retry_count = 3 }

exhausted_job_stays_example :
    let jobs =
      (reclaim_stuck_jobs 60 900000000
        (record { jobs = stale ∷ test_job ∷ []; runs = run_7 ∷ [] })).jobs in
    Has stale jobs × (claimable jobs test_job ≡ false)
exhausted_job_stays_example =
    exhausted_job_stays 60 900000000 (record { jobs = stale ∷ test_job ∷ []; runs = run_7 ∷ [] })
      stale test_job (inl refl) refl (ground arith) refl refl

abbrev built : Job
built = record building { status = success }

abbrev passed_run : PipelineRun
passed_run = record run_7 { status = success }

late_failure_revives_example :
    let db = mark_failed 1 1 300 (record { jobs = built ∷ []; runs = passed_run ∷ [] }) in
    (db.jobs ≡ set_failed 1 built ∷ [])
    × ((set_failed 1 built).status ≡ pending)
    × (db.runs ≡ passed_run ∷ [])
late_failure_revives_example =
    late_failure_revives built passed_run 1 300 refl refl refl (ground arith)

overtaken_example :
    ¬ IsGated
      (calls
        (insert 2 100 test_step ∷ claim (λ i. false) worker_1 150 ∷ insert 1 160 build_step ∷ [])
        (record { jobs = []; runs = run_7 ∷ [] })).jobs
overtaken_example = overtaken 2 1 100 150 160 test_step build_step worker_1 (run_7 ∷ []) refl refl
