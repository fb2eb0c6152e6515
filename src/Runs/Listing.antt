-- ===== src/Runs/Listing.antt =====
-- What the lists of runs and of log lines have in them.
use mathlib.Core.List.{Perm}
use postgres_pipeline_orches.Common.{ℕ, List, arith, ◌==◌, select}
use postgres_pipeline_orches.Common.Sorting.{IsOrdered, IsStrict, order_by-perm, order_by-IsOrdered}
use postgres_pipeline_orches.Streaming.{JobLog}
use postgres_pipeline_orches.Runs.Queries.{sooner, get_job_logs}

sooner-IsStrict : IsStrict sooner
sooner-IsStrict = record {
  asymmetric = λ a b h. ground (arith, h);
  not_trans = λ a b c h k. ground (arith, h, k);
}

-- The log lines of a job are those that are stored for it, from the earliest to the latest.
pub get_job_logs_lem :
    (job_id : ℕ) (logs : List JobLog)
    → IsOrdered sooner (get_job_logs job_id logs)
      × Perm (get_job_logs job_id logs) (select (λ l. l.job_id == job_id) logs)
unfolding get_job_logs
get_job_logs_lem job_id logs =
    let mine = select (λ (l : JobLog). l.job_id == job_id) logs in
    (order_by-IsOrdered sooner sooner-IsStrict mine, order_by-perm sooner mine)
