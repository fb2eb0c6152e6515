-- ===== src/Dashboard/DeploymentLocks.antt =====
-- `listDeploymentLocks`: the table `deployment_locks` with the run and the pipeline of each row.
use postgres_pipeline_orches.Common.{ℕ, Bool, Option, none, some, List, map, ◌==◌, find?}
use postgres_pipeline_orches.Common.Sorting.{order_by}
use postgres_pipeline_orches.Common.Text.{Text}
use postgres_pipeline_orches.Database.{Status, PipelineRun}
use postgres_pipeline_orches.Locks.{DeploymentLock}
use postgres_pipeline_orches.Runs.{Pipeline, Store}

pub record DeploymentLockRow : Type 0 where
  pub environment : Text
  pub locked_by : Option ℕ
  pub locked_at : ℕ
  pub run_status : Option Status
  pub pipeline_name : Option Text

-- `LEFT JOIN … ON` a primary key: one row at most.
abbrev pub run_at : Store → Option ℕ → Option PipelineRun
run_at s none = none
run_at s (some id) = find? (λ r. r.id == id) s.db.runs

abbrev pub pipeline_at : Store → Option PipelineRun → Option Pipeline
pipeline_at s none = none
pipeline_at s (some r) = find? (λ p. p.id == r.pipeline_id) s.pipelines

abbrev pub status_of : Option PipelineRun → Option Status
status_of none = none
status_of (some r) = some r.status

abbrev pub name_of : Option Pipeline → Option Text
name_of none = none
name_of (some p) = some p.name

abbrev pub lock_row : Store → DeploymentLock → DeploymentLockRow
lock_row s l =
    let run = run_at s l.locked_by in
    record {
      environment = l.environment;
      locked_by = l.locked_by;
      locked_at = l.locked_at;
      run_status = status_of run;
      pipeline_name = name_of (pipeline_at s run);
    }

-- `ORDER BY dl.environment`, by the database's order of texts.
unfoldable pub list_deployment_locks :
    (Text → Text → Bool) → List DeploymentLock → Store → List DeploymentLockRow
list_deployment_locks text_before locks s =
    order_by (λ a b. text_before a.environment b.environment) (map (lock_row s) locks)
