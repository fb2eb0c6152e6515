-- ===== src/JobQueue/Calls.antt =====
-- Calls of `JobQueueService` by any number of workers and of the API, each a transaction of its own.
use postgres_pipeline_orches.Common.{ℕ, Bool, List, [], ◌∷◌}
use postgres_pipeline_orches.Common.Text.{Text}
use postgres_pipeline_orches.Database.{Db}
use postgres_pipeline_orches.JobQueue.Claim.{claim_query}
use postgres_pipeline_orches.JobQueue.Operations.{
  NewJob, insert_new_job, update_heartbeat, mark_completed, mark_failed, reclaim_stuck_jobs,
}

-- `claim` has the rows that other transactions hold while it runs.
pub data QueueCall : Type 0 where
  insert : (id now : ℕ) → NewJob → QueueCall
  claim : (ℕ → Bool) → Text → (now : ℕ) → QueueCall
  heartbeat : (job_id now : ℕ) → QueueCall
  complete : (job_id exit_code now : ℕ) → QueueCall
  fail : (job_id exit_code now : ℕ) → QueueCall
  reclaim : (timeout_seconds now : ℕ) → QueueCall

unfoldable pub call : QueueCall → Db → Db
call (insert id now n) db = (insert_new_job id now n db).0
call (claim locked worker now) db = (claim_query locked worker now db).0
call (heartbeat job_id now) db = update_heartbeat job_id now db
call (complete job_id exit_code now) db = mark_completed job_id exit_code now db
call (fail job_id exit_code now) db = mark_failed job_id exit_code now db
call (reclaim timeout_seconds now) db = reclaim_stuck_jobs timeout_seconds now db

unfoldable pub calls : List QueueCall → Db → Db
calls [] db = db
calls (c ∷ cs) db = calls cs (call c db)
