-- ===== src/Tests/Fleet.antt =====
-- Two workers on the table, of which one dies.
use postgres_pipeline_orches.Common.{◌≡◌, refl, sym, subst, inl, inr, none, List, [], ◌∷◌, Has}
use postgres_pipeline_orches.Common.Text.{codes}
use postgres_pipeline_orches.Database.{Job, Db, AnswersRows, by_rows}
use postgres_pipeline_orches.JobQueue.{
  NewJob, insert_new_job, claim_next_job, claim_query, next_job, least, claimable, update_jobs,
  before,
}
use postgres_pipeline_orches.Worker.Heartbeat.{tick, run_reclaim_once}
use postgres_pipeline_orches.Worker.Fleet.{
  Runner, Fleet, stop_runner, beat_runner, after_claim, insert_job, claim_job, beat_job, die,
  reclaim_jobs, Reach, start, later,
}
use postgres_pipeline_orches.Tests.Samples.{worker_1, nothing_locked, build_step, run_7}

pub rows_driver : AnswersRows {A = Job} by_rows
rows_driver = record { at_none = refl; at_some = λ j js. refl }

-- Two workers claim the jobs of two runs; one sends a heartbeat, the other dies, and a reclaim
-- puts its job back.
abbrev empty : Fleet
empty = record { db = record { jobs = []; runs = run_7 ∷ [] }; runners = [] }

abbrev other_step : NewJob
other_step = record build_step { pipeline_run_id = 8 }

abbrev filled : Db
filled = (insert_new_job 2 100 other_step (insert_new_job 1 100 build_step empty.db).0).0

abbrev both : Fleet
both =
    after_claim by_rows nothing_locked (codes "worker-2") 220
      (after_claim by_rows nothing_locked worker_1 200 (record empty { db = filled }))

abbrev runner_1 : Runner
runner_1 = record { job_id = 1; beat = 200 }

abbrev runner_2 : Runner
runner_2 = record { job_id = 2; beat = 220 }

both_run : both.runners ≡ runner_2 ∷ runner_1 ∷ []
unfolding claim_next_job claim_query next_job least claimable insert_new_job update_jobs before
both_run = refl

abbrev alive : Fleet
alive = record { db = tick 2 200000 both.db; runners = beat_runner 2 200000 both.runners }

abbrev bereft : Fleet
bereft = record alive { runners = stop_runner 1 alive.runners }

abbrev reclaimed : Fleet
reclaimed = record bereft { db = run_reclaim_once none 400000 bereft.db }

history : Reach by_rows reclaimed
history =
    later
      (later
        (later
          (later
            (later
              (later (later (start (run_7 ∷ [])) (insert_job 1 100 build_step))
                (insert_job 2 100 other_step))
              (claim_job nothing_locked worker_1 200))
            (claim_job nothing_locked (codes "worker-2") 220))
          (beat_job runner_2 200000 (subst (Has runner_2) (sym both_run) (inl refl))))
        (die runner_1 (
          subst (λ (rs : List Runner). Has runner_1 (beat_runner 2 200000 rs)) (sym both_run)
            (inr (inl refl)))))
      (reclaim_jobs 400000)
