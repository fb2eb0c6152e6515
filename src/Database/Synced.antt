-- ===== src/Database/Synced.antt =====
-- What the trigger leaves of the runs, whatever it writes to their status and times.
use postgres_pipeline_orches.Common.{
  ℕ, ◌≡◌, refl, inl, inr, Bool, not, List, [], ◌∷◌, update, Bool-cases,
}
use postgres_pipeline_orches.Database.Entities.{
  Job, PipelineRun, is_running, is_failed, is_terminal,
}
use postgres_pipeline_orches.Database.Trigger.{
  some_job, sync_run, sync_runs, set_running, set_finished,
}

-- An update that keeps `id` and `pipeline_id`.
abbrev pub IsKept : (PipelineRun → PipelineRun) → Type 0
IsKept f = (r : PipelineRun) → ((f r).id ≡ r.id) × ((f r).pipeline_id ≡ r.pipeline_id)

-- What every such update keeps, the trigger keeps.
module _ {ℓ} (P : List PipelineRun → Type ℓ)
    (h : (p : PipelineRun → Bool) (f : PipelineRun → PipelineRun) (rs : List PipelineRun)
      → IsKept f
      → P rs
      → P (update p f rs)) where
  sync_run-keeps :
      (k now : ℕ) (jobs : List Job) (rs : List PipelineRun) → P rs → P (sync_run k now jobs rs)
  unfolding sync_run
  sync_run-keeps k now jobs rs x = elim (Bool-cases (some_job k is_running jobs)) [
    | inl t ↦ rw t (h _ (set_running now) rs (λ r. (refl, refl)) x)
    | inr t ↦ elim (Bool-cases (some_job k (λ s. not (is_terminal s)) jobs)) [
      | inl u ↦ rw (t, u) x
      | inr u ↦
          rw (t, u) (h _ (set_finished now (some_job k is_failed jobs)) rs (λ r. (refl, refl)) x)
    ]
  ]

  pub sync_runs-keeps :
      (now : ℕ) (jobs rows : List Job) (rs : List PipelineRun)
      → P rs
      → P (sync_runs now jobs rows rs)
  unfolding sync_runs
  sync_runs-keeps now jobs [] rs x = x
  sync_runs-keeps now jobs (j ∷ rows) rs x =
      sync_runs-keeps now jobs rows (sync_run j.pipeline_run_id now jobs rs)
        (sync_run-keeps j.pipeline_run_id now jobs rs x)
