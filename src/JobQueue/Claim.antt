-- ===== src/JobQueue/Claim.antt =====
-- `claimNextJob` of `src/queue/job-queue.service.ts`: the statement, and what the method makes of
-- the driver's answer.
use postgres_pipeline_orches.Common.{
  ℕ, Bool, not, ◌&&◌, Option, none, some, List, [], map, ◌==◌, or_else, select, update,
}
use postgres_pipeline_orches.Common.Text.{Text}
use postgres_pipeline_orches.Database.{running, Job, Db, sync_runs, First, missing, row, rows}
use postgres_pipeline_orches.JobQueue.Order.{claimable, least}

-- The `SET` of the statement.
abbrev pub set_claimed : Text → ℕ → Job → Job
set_claimed worker now j = record j {
  claimed_by = some worker;
  claimed_at = some now;
  heartbeat_at = some now;
  started_at = some now;
  status = running;
}

-- The inner query. `locked` tells the rows that other transactions hold, which SKIP LOCKED passes.
unfoldable pub next_job : (ℕ → Bool) → List Job → Option Job
next_job locked jobs = least (select (λ j. claimable jobs j && not (locked j.id)) jobs)

-- The rows that an `UPDATE jobs … WHERE p` wrote, with the new table and the runs after the trigger.
unfoldable pub update_jobs : ℕ → (Job → Bool) → (Job → Job) → Db → Db × List Job
update_jobs now p f db =
    let jobs = update p f db.jobs in
    let rows = map f (select p db.jobs) in
    (record { jobs = jobs; runs = sync_runs now jobs rows db.runs }, rows)

-- The whole statement. Where the inner query finds no row, `id = NULL` holds of none.
unfoldable pub claim_query : (ℕ → Bool) → Text → ℕ → Db → Db × List Job
unfolding next_job update_jobs
claim_query locked worker now db = elim (next_job locked db.jobs) [
  | none ↦ (db, [])
  | some k ↦ update_jobs now (λ j. j.id == k.id) (set_claimed worker now) db
]

-- What the worker gets: the fields of a raw row that it reads, where there may be none.
pub record Claimed : Type 0 where
  pub id : Option ℕ
  pub command : Text
  pub stage : Text
  pub pipeline_run_id : Option ℕ

-- A raw row with either casing of its keys.
pub record RawRow : Type 0 where
  pub id : Option ℕ
  pub id_upper : Option ℕ
  pub command : Option Text
  pub command_upper : Option Text
  pub stage : Option Text
  pub stage_upper : Option Text
  pub pipeline_run_id : Option ℕ

abbrev pub or_also {ℓ} : {A : Type ℓ} → Option A → Option A → Option A
or_also none o = o
or_also (some a) _ = some a

unfoldable pub normalize_job_row : RawRow → Claimed
normalize_job_row r = record {
  id = or_also r.id r.id_upper;
  command = or_else (or_also r.command r.command_upper) [];
  stage = or_else (or_also r.stage r.stage_upper) [];
  pipeline_run_id = r.pipeline_run_id;
}

-- PostgreSQL folds unquoted names to lower case.
abbrev pub raw_row : Job → RawRow
raw_row j = record {
  id = some j.id;
  id_upper = none;
  command = some j.command;
  command_upper = none;
  stage = some j.stage;
  stage_upper = none;
  pipeline_run_id = some j.pipeline_run_id;
}

-- A list has none of the keys.
abbrev pub raw_list : RawRow
raw_list = record {
  id = none;
  id_upper = none;
  command = none;
  command_upper = none;
  stage = none;
  stage_upper = none;
  pipeline_run_id = none;
}

-- `result[0] ?? null`, `if (!row) return null`, `normalizeJobRow`: a list is never falsy.
unfoldable pub read_claim : First Job → Option Claimed
unfolding normalize_job_row
read_claim missing = none
read_claim (row j) = some (normalize_job_row (raw_row j))
read_claim (rows js) = some (normalize_job_row raw_list)

-- `first` is the driver: what stands at index 0 of its answer.
unfoldable pub claim_next_job :
    (List Job → First Job) → (ℕ → Bool) → Text → ℕ → Db → Db × Option Claimed
unfolding claim_query read_claim
claim_next_job first locked worker now db =
    let (db', written) = claim_query locked worker now db in (db', read_claim (first written))
