-- ===== src/Database/Entities.antt =====
-- The rows of the tables `jobs` and `pipeline_runs` (`src/database/entities/job.entity.ts`,
-- `pipeline-run.entity.ts`). A nullable column is an `Option`. The columns `status` are strings, of
-- which the code writes and tests five; relations and indexes hold no data of their own.
use postgres_pipeline_orches.Common.{ℕ, Bool, true, false, Option, List}
use postgres_pipeline_orches.Common.Int.{ℤ}
use postgres_pipeline_orches.Common.Text.{Text}
use postgres_pipeline_orches.Common.Json.{Json}

pub data Status : Type 0 where
  pending running success failed cancelled : Status

pub record Job : Type 0 where
  pub id : ℕ
  pub pipeline_run_id : ℕ
  pub stage : Text
  pub stage_order : ℕ
  pub step_name : Text
  pub step_order : ℕ
  pub command : Text
  pub status : Status
  pub priority : ℤ
  pub claimed_by : Option Text
  pub claimed_at : Option ℕ
  pub heartbeat_at : Option ℕ
  pub retry_count : ℕ
  pub max_retries : ℕ
  pub exit_code : Option ℕ
  pub started_at : Option ℕ
  pub completed_at : Option ℕ
  pub created_at : ℕ

pub record PipelineRun : Type 0 where
  pub id : ℕ
  pub pipeline_id : ℕ
  pub trigger_type : Text
  pub trigger_metadata : Option Json
  pub status : Status
  pub started_at : Option ℕ
  pub completed_at : Option ℕ
  pub created_at : ℕ

-- The two tables that the job queue reads and writes.
pub record Db : Type 0 where
  pub jobs : List Job
  pub runs : List PipelineRun

abbrev pub is_pending : Status → Bool
is_pending pending = true
is_pending _ = false

abbrev pub is_running : Status → Bool
is_running running = true
is_running _ = false

abbrev pub is_failed : Status → Bool
is_failed failed = true
is_failed _ = false

-- `status IN ('success', 'failed', 'cancelled')`
abbrev pub is_terminal : Status → Bool
is_terminal pending = false
is_terminal running = false
is_terminal _ = true
