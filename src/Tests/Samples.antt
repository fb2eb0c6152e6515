-- ===== src/Tests/Samples.antt =====
-- The data of the tests: a run with a build job and a test job.
use postgres_pipeline_orches.Common.{ℕ, Bool, false, none, [], ◌∷◌}
use postgres_pipeline_orches.Common.Int.{pos}
use postgres_pipeline_orches.Common.Text.{Text, codes}
use postgres_pipeline_orches.Database.{pending, Job, PipelineRun, Db}
use postgres_pipeline_orches.JobQueue.{NewJob, new_row, set_claimed}

abbrev pub worker_1 : Text
worker_1 = codes "worker-1"

abbrev pub nothing_locked : ℕ → Bool
nothing_locked i = false

abbrev pub build_step : NewJob
build_step = record {
  pipeline_run_id = 7;
  stage = codes "build";
  step_name = codes "install";
  command = codes "npm ci";
  priority = pos 5;
  stage_order = 0;
  step_order = 0;
}

abbrev pub test_step : NewJob
test_step = record build_step {
  stage = codes "test";
  step_name = codes "test";
  command = codes "npm test";
  stage_order = 1;
}

abbrev pub build_job : Job
build_job = new_row 1 100 build_step

abbrev pub test_job : Job
test_job = new_row 2 100 test_step

abbrev pub run_7 : PipelineRun
run_7 = record {
  id = 7;
  pipeline_id = 3;
  trigger_type = codes "manual";
  trigger_metadata = none;
  status = pending;
  started_at = none;
  completed_at = none;
  created_at = 90;
}

abbrev pub queued : Db
queued = record { jobs = build_job ∷ test_job ∷ []; runs = run_7 ∷ [] }

abbrev pub building : Job
building = set_claimed worker_1 200 build_job
