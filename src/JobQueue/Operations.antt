-- ===== src/JobQueue/Operations.antt =====
-- The other methods of `src/queue/job-queue.service.ts`. `now` is the value of NOW().
use postgres_pipeline_orches.Common.{
  ℕ, ◌+◌, ◌*◌, Bool, false, ◌&&◌, Option, none, some, [], ◌∷◌, ◌++◌, ltb, leb, ◌==◌, if◌then◌else◌,
  update,
}
use postgres_pipeline_orches.Common.Int.{ℤ}
use postgres_pipeline_orches.Common.Text.{Text}
use postgres_pipeline_orches.Database.{pending, success, failed, is_running, Job, Db, sync_runs}
use postgres_pipeline_orches.JobQueue.Claim.{update_jobs}

-- The arguments of `insertNewJob`.
pub record NewJob : Type 0 where
  pub pipeline_run_id : ℕ
  pub stage : Text
  pub step_name : Text
  pub command : Text
  pub priority : ℤ
  pub stage_order : ℕ
  pub step_order : ℕ

-- The row that the INSERT writes, with the defaults of the columns that it leaves out.
abbrev pub new_row : ℕ → ℕ → NewJob → Job
new_row id now n = record {
  id = id;
  pipeline_run_id = n.pipeline_run_id;
  stage = n.stage;
  stage_order = n.stage_order;
  step_name = n.step_name;
  step_order = n.step_order;
  command = n.command;
  status = pending;
  priority = n.priority;
  claimed_by = none;
  claimed_at = none;
  heartbeat_at = none;
  retry_count = 0;
  max_retries = 3;
  exit_code = none;
  started_at = none;
  completed_at = none;
  created_at = now;
}

-- `id` is the uuid that the database makes.
unfoldable pub insert_new_job : ℕ → ℕ → NewJob → Db → Db × Job
insert_new_job id now n db =
    let j = new_row id now n in
    let jobs = db.jobs ++ j ∷ [] in
    (record { jobs = jobs; runs = sync_runs now jobs (j ∷ []) db.runs }, j)

abbrev pub set_heartbeat : ℕ → Job → Job
set_heartbeat now j = record j { heartbeat_at = some now }

-- `heartbeat_at` is no column that the trigger listens to.
unfoldable pub update_heartbeat : ℕ → ℕ → Db → Db
update_heartbeat job_id now db = record db {
  jobs = update (λ j. j.id == job_id) (set_heartbeat now) db.jobs;
}

abbrev pub set_completed : ℕ → ℕ → Job → Job
set_completed exit_code now j = record j {
  status = success;
  exit_code = some exit_code;
  completed_at = some now;
}

unfoldable pub mark_completed : ℕ → ℕ → ℕ → Db → Db
unfolding update_jobs
mark_completed job_id exit_code now db =
    (update_jobs now (λ j. j.id == job_id) (set_completed exit_code now) db).0

abbrev pub set_failed : ℕ → Job → Job
set_failed exit_code j = record j {
  status = if leb j.max_retries (j.retry_count + 1) then failed else pending;
  retry_count = j.retry_count + 1;
  exit_code = some exit_code;
  claimed_by = none;
  claimed_at = none;
}

unfoldable pub mark_failed : ℕ → ℕ → ℕ → Db → Db
unfolding update_jobs
mark_failed job_id exit_code now db =
    (update_jobs now (λ j. j.id == job_id) (set_failed exit_code) db).0

abbrev pub second : ℕ
second = 1000000

-- `heartbeat_at < NOW() - timeout`, which a null heartbeat does not satisfy.
abbrev pub expired : ℕ → ℕ → Option ℕ → Bool
expired timeout_seconds now none = false
expired timeout_seconds now (some t) = ltb (t + timeout_seconds * second) now

abbrev pub stuck : ℕ → ℕ → Job → Bool
stuck timeout_seconds now j =
    is_running j.status
    && (expired timeout_seconds now j.heartbeat_at && ltb j.retry_count j.max_retries)

abbrev pub set_reclaimed : Job → Job
set_reclaimed j = record j {
  status = pending;
  claimed_by = none;
  claimed_at = none;
  retry_count = j.retry_count + 1;
}

unfoldable pub reclaim_stuck_jobs : ℕ → ℕ → Db → Db
unfolding update_jobs
reclaim_stuck_jobs timeout_seconds now db =
    (update_jobs now (stuck timeout_seconds now) set_reclaimed db).0
