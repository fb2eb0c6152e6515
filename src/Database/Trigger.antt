-- ===== src/Database/Trigger.antt =====
-- The trigger `jobs_sync_pipeline_run_status` (`src/database/database-seed.service.ts`), which
-- derives the status of a run from its jobs after an INSERT, or an UPDATE that sets `status`.
use postgres_pipeline_orches.Common.{
  ℕ, Bool, not, ◌&&◌, ◌||◌, some, List, [], ◌∷◌, ◌==◌, if◌then◌else◌, or_else, is_some, any, update,
}
use postgres_pipeline_orches.Database.Entities.{
  Status, running, failed, success, Job, PipelineRun, is_running, is_failed, is_terminal,
}

abbrev pub set_running : ℕ → PipelineRun → PipelineRun
set_running now r = record r { status = running; started_at = some (or_else r.started_at now) }

abbrev pub set_finished : ℕ → Bool → PipelineRun → PipelineRun
set_finished now has_failed r = record r {
  status = if has_failed then failed else success;
  completed_at = some (or_else r.completed_at now);
}

-- The rows that the trigger sets to running: `AND (status IS DISTINCT FROM 'running' OR …)`.
abbrev pub to_start : ℕ → PipelineRun → Bool
to_start run_id r = r.id == run_id && (not (is_running r.status) || not (is_some r.started_at))

module _ (run_id : ℕ) where
  -- `EXISTS (SELECT 1 FROM jobs WHERE pipeline_run_id = run_id AND …)`
  abbrev pub some_job : (Status → Bool) → List Job → Bool
  some_job p jobs = any jobs (λ j. j.pipeline_run_id == run_id && p j.status)

  -- The body of the trigger, at one row of `jobs`.
  unfoldable pub sync_run : ℕ → List Job → List PipelineRun → List PipelineRun
  sync_run now jobs runs =
      let has_running = some_job is_running jobs in
      let all_terminal = not (some_job (λ s. not (is_terminal s)) jobs) in
      let has_failed = some_job is_failed jobs in
      if has_running
      then update (λ r. r.id == run_id && (not (is_running r.status) || not (is_some r.started_at)))
          (set_running now) runs
      else if all_terminal
      then update (λ r. r.id == run_id) (set_finished now has_failed) runs
      else runs

-- An AFTER trigger runs once for each row that the statement wrote, with all the writes in view.
unfoldable pub sync_runs : ℕ → List Job → List Job → List PipelineRun → List PipelineRun
sync_runs now jobs [] runs = runs
sync_runs now jobs (j ∷ rows) runs =
    sync_runs now jobs rows (sync_run j.pipeline_run_id now jobs runs)
