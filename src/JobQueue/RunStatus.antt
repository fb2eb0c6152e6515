-- ===== src/JobQueue/RunStatus.antt =====
-- The status of a run follows its jobs: what the trigger establishes, and what every method of the
-- job queue keeps.
use postgres_pipeline_orches.Common.{
  ℕ, ◌≡◌, ◌⊎◌, inl, inr, Bool, true, false, not, List, [], ◌∷◌, arith, ◌==◌, if◌then◌else◌, is_some,
  All, All-update, All-imp, any, Bool-cases,
}
use postgres_pipeline_orches.Database.{
  running, success, failed, is_running, is_failed, is_terminal, Job, PipelineRun, some_job,
  sync_run, sync_runs, set_running, set_finished, to_start, Status,
}

abbrev pub unfinished : Status → Bool
unfinished s = not (is_terminal s)

abbrev pub whatever : Status → Bool
whatever _ = true

-- A run with a running job is running and has started; a run whose jobs, one or more, have all
-- ended has ended, as failed if one of them failed and else as a success.
pub record IsSynced (jobs : List Job) (r : PipelineRun) : Type 0 where
  pub while_running :
      some_job r.id is_running jobs ≡ true → (r.status ≡ running) × (is_some r.started_at ≡ true)
  pub when_ended :
      some_job r.id whatever jobs ≡ true
      → some_job r.id unfinished jobs ≡ false
      → (r.status ≡ (if some_job r.id is_failed jobs then failed else success))
        × (is_some r.completed_at ≡ true)

-- Synced, or about to be: one of the rows that the trigger has yet to see is of the run.
abbrev pub Due : List Job → List Job → PipelineRun → Type 0
Due jobs rows r = IsSynced jobs r ⊎ (any rows (λ j. j.pipeline_run_id == r.id) ≡ true)

running_unfinished :
    (i : ℕ) (jobs : List Job)
    → some_job i is_running jobs ≡ true
    → some_job i unfinished jobs ≡ true
running_unfinished i [] h = cc
running_unfinished i (j ∷ jobs) h = ground (arith, running_unfinished i jobs)

module _ (j : Job) (now : ℕ) (jobs rows : List Job) (r : PipelineRun) where
  open j use {pipeline_run_id as i}

  row_running :
      some_job i is_running jobs ≡ true
      → Due jobs (j ∷ rows) r
      → Due jobs rows (if to_start i r then set_running now r else r)
  row_running t d = ground (arith, running_unfinished r.id jobs)

  row_waiting :
      some_job i is_running jobs ≡ false
      → some_job i unfinished jobs ≡ true
      → Due jobs (j ∷ rows) r
      → Due jobs rows r
  row_waiting t u d = ground arith

  row_ended :
      some_job i is_running jobs ≡ false
      → some_job i unfinished jobs ≡ false
      → Due jobs (j ∷ rows) r
      → Due jobs rows (if r.id == i then set_finished now (some_job i is_failed jobs) r else r)
  row_ended t u d = ground arith

sync_run-Due :
    (j : Job) (now : ℕ) (jobs rows : List Job) (runs : List PipelineRun)
    → All (Due jobs (j ∷ rows)) runs
    → All (Due jobs rows) (sync_run j.pipeline_run_id now jobs runs)
unfolding sync_run
sync_run-Due j now jobs rows runs h =
    elim (Bool-cases (some_job j.pipeline_run_id is_running jobs)) [
      | inl t ↦ rw t (
          All-update was will (to_start i) (set_running now) runs
            (λ r. row_running j now jobs rows r t) h)
      | inr t ↦ rw t (elim (Bool-cases (some_job j.pipeline_run_id unfinished jobs)) [
        | inl u ↦ rw u (All-imp was will runs (λ r. row_waiting j now jobs rows r t u) h)
        | inr u ↦ rw u (
            All-update was will (λ r. r.id == i) (set_finished now (some_job i is_failed jobs)) runs
              (λ r. row_ended j now jobs rows r t u) h)
      ])
    ]
  where
    open j use {pipeline_run_id as i}

    was : PipelineRun → Type 0
    was = Due jobs (j ∷ rows)

    will : PipelineRun → Type 0
    will = Due jobs rows

-- Once the trigger has seen every written row, each run that was synced or due is synced.
pub sync_runs-IsSynced :
    (now : ℕ) (jobs rows : List Job) (runs : List PipelineRun)
    → All (Due jobs rows) runs
    → All (IsSynced jobs) (sync_runs now jobs rows runs)
unfolding sync_runs
sync_runs-IsSynced now jobs [] runs h =
    All-imp (Due jobs []) (IsSynced jobs) runs (λ r d. elim d [ inl s ↦ s | inr e ↦ cc ]) h
sync_runs-IsSynced now jobs (j ∷ rows) runs h =
    sync_runs-IsSynced now jobs rows (sync_run j.pipeline_run_id now jobs runs)
      (sync_run-Due j now jobs rows runs h)
