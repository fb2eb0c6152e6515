-- ===== src/Worker/Fleet.antt =====
-- All the workers and the API as one system of steps on the queue's tables: the claim of
-- `src/worker/worker.service.ts`, the heartbeat that `src/worker/job-executor.service.ts` sends while a
-- command runs, the report, the reclaim of `src/worker/heartbeat.service.ts`, and the INSERTs of
-- `src/api/runs/runs.service.ts`.
use postgres_pipeline_orches.Common.{
  ℕ, ◌+◌, ◌*◌, ◌≤◌, Bool, not, Option, none, some, List, [], ◌∷◌, ◌==◌, Has, All, select, update,
}
use postgres_pipeline_orches.Common.Text.{Text}
use postgres_pipeline_orches.Database.{Job, PipelineRun, Db, First}
use postgres_pipeline_orches.JobQueue.{
  Claimed, NewJob, insert, claim_next_job, insert_new_job, second,
}
use postgres_pipeline_orches.JobQueue.Protocol.{Allowed}
use postgres_pipeline_orches.Worker.Turn.{report}
use postgres_pipeline_orches.Worker.Heartbeat.{tick, run_reclaim_once, default_timeout_seconds}

-- A call of `execute` under way: its job, and the time of its last heartbeat in the table.
pub record Runner : Type 0 where
  pub job_id : ℕ
  pub beat : ℕ

pub record Fleet : Type 0 where
  pub db : Db
  pub runners : List Runner

-- A claim that answers with a job starts a runner; `execute` of a job with no id returns at once.
abbrev pub start_runner : ℕ → Option Claimed → List Runner → List Runner
start_runner now none rs = rs
start_runner now (some job) rs = elim job.id [
  | none ↦ rs
  | some id ↦ record { job_id = id; beat = now } ∷ rs
]

abbrev pub stop_runner : ℕ → List Runner → List Runner
stop_runner id = select (λ h. not (h.job_id == id))

abbrev pub set_beat : ℕ → Runner → Runner
set_beat now h = record h { beat = now }

abbrev pub beat_runner : ℕ → ℕ → List Runner → List Runner
beat_runner id now = update (λ h. h.job_id == id) (set_beat now)

module _ (first : List Job → First Job) where
  abbrev pub after_claim : (ℕ → Bool) → Text → ℕ → Fleet → Fleet
  after_claim locked worker now s =
      let (db, job) = claim_next_job first locked worker now s.db in
      record { db = db; runners = start_runner now job s.runners }

  -- `lost_claim` is a claim that took effect and whose answer never arrived, and `die` a runner that
  -- ends with no report, with its process or because the report failed.
  pub data Step (s : Fleet) : Fleet → Type 0 where
    insert_job :
        (id now : ℕ) (n : NewJob) → Step s (record s { db = (insert_new_job id now n s.db).0 })
    claim_job :
        (locked : ℕ → Bool) (worker : Text) (now : ℕ) → Step s (after_claim locked worker now s)
    lost_claim :
        (locked : ℕ → Bool) (worker : Text) (now : ℕ)
        → Step s (record s { db = (claim_next_job first locked worker now s.db).0 })
    beat_job :
        (h : Runner) (now : ℕ)
        → Has h s.runners
        → Step s
            (record { db = tick h.job_id now s.db; runners = beat_runner h.job_id now s.runners })
    report_job :
        (h : Runner) (exit_code now : ℕ)
        → Has h s.runners
        → Step s (record {
          db = report (some h.job_id) exit_code now s.db;
          runners = stop_runner h.job_id s.runners;
        })
    die :
        (h : Runner)
        → Has h s.runners
        → Step s (record s { runners = stop_runner h.job_id s.runners })
    reclaim_jobs : (now : ℕ) → Step s (record s { db = run_reclaim_once none now s.db })

  -- A history that keeps the protocol: an insert has a fresh id and is not put before a running job of
  -- its run, and a reclaim is no later after the last heartbeat of any runner than its timeout.
  abbrev pub IsProper : {s t : Fleet} → Step s t → Type 0
  IsProper {s} (insert_job id now n) = Allowed s.db.jobs (insert id now n)
  IsProper {s} (reclaim_jobs now) =
      All (λ h. now ≤ h.beat + default_timeout_seconds * second) s.runners
  IsProper _ = Unit {0}

  pub data Reach : Fleet → Type 0 where
    start :
        (runs : List PipelineRun)
        → Reach (record { db = record { jobs = []; runs = runs }; runners = [] })
    later : {s t : Fleet} → Reach s → Step s t → Reach t

  abbrev pub AllProper : {s : Fleet} → Reach s → Type 0
  AllProper (start runs) = Unit {0}
  AllProper (later r st) = AllProper r × IsProper st
