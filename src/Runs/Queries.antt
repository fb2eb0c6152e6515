-- ===== src/Runs/Queries.antt =====
-- The queries of `src/api/runs/runs.service.ts`, and their handlers in
-- `src/api/runs/runs.controller.ts`.
use postgres_pipeline_orches.Common.{
  ℕ, Bool, true, Option, none, some, List, ltb, ◌==◌, select, find?,
}
use postgres_pipeline_orches.Common.Sorting.{order_by, limit}
use postgres_pipeline_orches.Database.{Job, PipelineRun, Db}
use postgres_pipeline_orches.Streaming.{JobLog}

-- `order: { created_at: 'DESC' }`
abbrev pub newer_run : PipelineRun → PipelineRun → Bool
newer_run r q = ltb q.created_at r.created_at

-- `where: pipelineId ? { pipeline_id: pipelineId } : undefined`; an empty id is `none`.
abbrev pub is_wanted : Option ℕ → PipelineRun → Bool
is_wanted none r = true
is_wanted (some pipeline_id) r = r.pipeline_id == pipeline_id

abbrev pub page_size : ℕ
page_size = 100

unfoldable pub find_all : Option ℕ → Db → List PipelineRun
find_all pipeline_id db =
    limit page_size (order_by newer_run (select (is_wanted pipeline_id) db.runs))

unfoldable pub find_one : ℕ → Db → Option PipelineRun
find_one run_id db = find? (λ r. r.id == run_id) db.runs

pub record RunWithJobs : Type 0 where
  pub run : PipelineRun
  pub jobs : List Job

-- The relation `jobs` of a run, which has no order of its own.
unfoldable pub find_one_with_jobs : ℕ → Db → Option RunWithJobs
unfolding find_one
find_one_with_jobs run_id db = elim (find_one run_id db) [
  | none ↦ none
  | some run ↦ some (record { run = run; jobs = select (λ j. j.pipeline_run_id == run.id) db.jobs })
]

-- `order: { timestamp: 'ASC' }`
abbrev pub sooner : JobLog → JobLog → Bool
sooner a b = ltb a.timestamp b.timestamp

unfoldable pub get_job_logs : ℕ → List JobLog → List JobLog
get_job_logs job_id logs = order_by sooner (select (λ l. l.job_id == job_id) logs)

-- `if (!run) throw new NotFoundException(…)`
pub data Found {ℓ} (A : Type ℓ) : Type ℓ where
  found : A → Found A
  run_not_found : Found A

abbrev pub found_or {ℓ} : {A : Type ℓ} → Option A → Found A
found_or none = run_not_found
found_or (some a) = found a

unfoldable pub get_run : ℕ → Db → Found PipelineRun
unfolding find_one
get_run id db = found_or (find_one id db)

unfoldable pub get_run_with_jobs : ℕ → Db → Found RunWithJobs
unfolding find_one_with_jobs
get_run_with_jobs id db = found_or (find_one_with_jobs id db)
