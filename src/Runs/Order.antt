-- ===== src/Runs/Order.antt =====
-- The jobs of a run are put in a strict order by their stages and steps.
use postgres_pipeline_orches.Common.{
  All-append, ℕ, suc, ◌≤◌, ◌≡◌, refl, true, Option, none, some, List, [], ◌∷◌, ◌++◌, arith, All,
  All-imp, or_else,
}
use postgres_pipeline_orches.Common.Text.{Text}
use postgres_pipeline_orches.JobQueue.{NewJob, new_row, earlier}
use postgres_pipeline_orches.Runs.Trigger.{
  PipelineStep, PipelineStage, PipelineConfig, step_jobs, stage_jobs, config_jobs,
}

-- The claim query's order, on the rows that two INSERTs write.
abbrev pub IsBefore : NewJob → NewJob → Type 0
IsBefore n m = earlier (new_row 0 0 n) (new_row 0 0 m) ≡ true

abbrev pub IsStaged : List NewJob → Type 0
IsStaged [] = Unit {0}
IsStaged (n ∷ ns) = All (IsBefore n) ns × IsStaged ns

append-IsStaged :
    (ns ms : List NewJob)
    → IsStaged ns
    → IsStaged ms
    → All (λ n. All (IsBefore n) ms) ns
    → IsStaged (ns ++ ms)
append-IsStaged [] ms a b c = b
append-IsStaged (n ∷ ns) ms a b c =
    (All-append (IsBefore n) ns ms a.0 c.0, append-IsStaged ns ms a.1 b c.1)

module _ (run_id : ℕ) where
  -- The steps of a stage, from a step on.
  steps_after :
      (stage : Text) (i j : ℕ) (steps : List PipelineStep)
      → All (λ m. (m.stage_order ≡ i) × (j ≤ m.step_order)) (step_jobs run_id stage i j steps)
  unfolding step_jobs
  steps_after stage i j [] = tt
  steps_after stage i j (s ∷ steps) = (
    (refl, omega arith),
    All-imp _ _ _ (λ m (e, h). (e, omega (arith, h))) (steps_after stage i (suc j) steps),
  )

  stages_after :
      (i : ℕ) (stages : List PipelineStage)
      → All (λ m. i ≤ m.stage_order) (stage_jobs run_id i stages)
  unfolding stage_jobs
  stages_after i [] = tt
  stages_after i (s ∷ stages) =
      All-append _ _ _
        (All-imp _ _ _ (λ m (e, h). omega (arith, e)) (steps_after s.name i 0 s.steps))
        (All-imp _ _ _ (λ m h. omega (arith, h)) (stages_after (suc i) stages))

  steps-IsStaged :
      (stage : Text) (i j : ℕ) (steps : List PipelineStep)
      → IsStaged (step_jobs run_id stage i j steps)
  unfolding step_jobs
  steps-IsStaged stage i j [] = tt
  steps-IsStaged stage i j (s ∷ steps) = (
    All-imp _ _ _ (λ m (e, h). ground (arith, e, h)) (steps_after stage i (suc j) steps),
    steps-IsStaged stage i (suc j) steps,
  )

  stages-IsStaged : (i : ℕ) (stages : List PipelineStage) → IsStaged (stage_jobs run_id i stages)
  unfolding stage_jobs
  stages-IsStaged i [] = tt
  stages-IsStaged i (s ∷ stages) =
      append-IsStaged _ _ (steps-IsStaged s.name i 0 s.steps) (stages-IsStaged (suc i) stages) (
        All-imp _ _ _
          (λ n (e, h). All-imp _ _ _ (λ m k. ground (arith, e, k)) (stages_after (suc i) stages))
          (steps_after s.name i 0 s.steps))

  -- The jobs of a run are listed in the claim query's order, each strictly before all that follow.
  pub config_jobs-IsStaged : (config : Option PipelineConfig) → IsStaged (config_jobs run_id config)
  config_jobs-IsStaged none = tt
  config_jobs-IsStaged (some config) = stages-IsStaged 0 (or_else config.stages [])
