-- ===== src/Runs/Steps.antt =====
-- The rows that `triggerRun` stores, described by the indices of the config alone.
use postgres_pipeline_orches.Common.{
  ℕ, suc, zero, ◌+◌, ◌≡◌, refl, sym, ap, subst, ◌∙◌, inl, inr, Option, none, some, List, [], ◌∷◌,
  ◌++◌, arith, Has, Has-append, or_else,
}
use postgres_pipeline_orches.Common.Int.{pos}
use postgres_pipeline_orches.Common.Text.{Text}
use postgres_pipeline_orches.Database.{pending, Job}
use postgres_pipeline_orches.JobQueue.{NewJob, new_row}
use postgres_pipeline_orches.Runs.Trigger.{
  PipelineStep, PipelineStage, PipelineConfig, step_job, step_jobs, stage_jobs, config_jobs,
}

-- `xs[i]` is `x`.
abbrev pub At : {A : Type 0} → ℕ → A → List A → Type 0
At i x [] = ⊥
At zero x (y ∷ xs) = y ≡ x
At (suc i) x (y ∷ xs) = At i x xs

abbrev pub stages_of : Option PipelineConfig → List PipelineStage
stages_of none = []
stages_of (some config) = or_else config.stages []

-- A new row for the step at `step_index` of the stage at `stage_index`.
pub record IsStepRow (run_id : ℕ) (stage : PipelineStage) (step : PipelineStep)
    (stage_index step_index : ℕ) (row : Job) : Type 0 where
  pub of_run : row.pipeline_run_id ≡ run_id
  pub waiting : row.status ≡ pending
  pub stage_name : row.stage ≡ stage.name
  pub step_name : row.step_name ≡ step.name
  pub command : row.command ≡ step.command
  pub given_priority : (p : _) → step.priority ≡ some p → row.priority ≡ p
  pub default_priority : step.priority ≡ none → row.priority ≡ pos 5
  pub stage_order : row.stage_order ≡ stage_index
  pub step_order : row.step_order ≡ step_index

step_row :
    (run_id x now i j : ℕ) (stage : PipelineStage) (step : PipelineStep)
    → IsStepRow run_id stage step i j (new_row x now (step_job run_id stage.name i j step))
step_row run_id x now i j stage step = record {
  of_run = refl;
  waiting = refl;
  stage_name = refl;
  step_name = refl;
  command = refl;
  given_priority = λ p e. rw e refl;
  default_priority = λ e. rw e refl;
  stage_order = refl;
  step_order = refl;
}

none_before : (k : ℕ) → 0 + k ≡ k
none_before k = omega arith

module _ (run_id : ℕ) where
  -- What stands in the list of a stage's jobs.
  steps-At :
      (stage : Text) (i j : ℕ) (steps : List PipelineStep) (n : NewJob)
      → Has n (step_jobs run_id stage i j steps)
      → (k : ℕ) × (step : PipelineStep) × At k step steps
        × (step_job run_id stage i (j + k) step ≡ n)
  unfolding step_jobs
  steps-At stage i j [] n h = absurd h
  steps-At stage i j (s ∷ steps) n (inl e) =
      let q : j + 0 ≡ j = omega arith in
      (0, s, refl, subst (λ m. step_job run_id stage i m s ≡ n) (sym q) e)
  steps-At stage i j (s ∷ steps) n (inr h) =
      let (k, step, a, e) = steps-At stage i (suc j) steps n h in
      let q : suc j + k ≡ j + suc k = omega arith in
      (suc k, step, a, subst (λ m. step_job run_id stage i m step ≡ n) q e)

  At-steps :
      (stage : Text) (i j k : ℕ) (steps : List PipelineStep) (step : PipelineStep)
      → At k step steps
      → Has (step_job run_id stage i (j + k) step) (step_jobs run_id stage i j steps)
  unfolding step_jobs
  At-steps stage i j k [] step a = absurd a
  At-steps stage i j zero (s ∷ steps) step a =
      let q : j ≡ j + 0 = omega arith in
      inl (ap (step_job run_id stage i j) a ∙ ap (λ m. step_job run_id stage i m step) q)
  At-steps stage i j (suc k) (s ∷ steps) step a =
      let q : suc j + k ≡ j + suc k = omega arith in
      inr (
        subst (λ m. Has (step_job run_id stage i m step) (step_jobs run_id stage i (suc j) steps)) q
          (At-steps stage i (suc j) k steps step a))

  first_steps :
      (stage : Text) (i : ℕ) (steps : List PipelineStep) (n : NewJob)
      → Has n (step_jobs run_id stage i 0 steps)
      → (k : ℕ) × (step : PipelineStep) × At k step steps × (step_job run_id stage i k step ≡ n)
  first_steps stage i steps n h =
      let (k, step, a, e) = steps-At stage i 0 steps n h in
      (k, step, a, subst (λ m. step_job run_id stage i m step ≡ n) (none_before k) e)

  stages-At :
      (i : ℕ) (stages : List PipelineStage) (n : NewJob)
      → Has n (stage_jobs run_id i stages)
      → (l : ℕ) × (stage : PipelineStage) × At l stage stages
        × ((k : ℕ) × (step : PipelineStep) × At k step stage.steps
            × (step_job run_id stage.name (i + l) k step ≡ n))
  unfolding stage_jobs
  stages-At i [] n h = absurd h
  stages-At i (s ∷ stages) n h =
      elim (Has-append (step_jobs run_id s.name i 0 s.steps) (stage_jobs run_id (suc i) stages) n
        h) [
          | inl a ↦
              let q : i + 0 ≡ i = omega arith in
              (
                0,
                s,
                refl,
                subst
                    (λ m.
                      (k : ℕ) × (step : PipelineStep) × At k step s.steps
                      × (step_job run_id s.name m k step ≡ n))
                    (sym q) (first_steps s.name i s.steps n a),
              )
          | inr b ↦
              let (l, stage, a, (k, step, c, e)) = stages-At (suc i) stages n b in
              let q : suc i + l ≡ i + suc l = omega arith in
              (
                suc l,
                stage,
                a,
                (k, step, c, subst (λ m. step_job run_id stage.name m k step ≡ n) q e),
              )
        ]

  Has-left : {A : Type 0} (xs ys : List A) (a : A) → Has a xs → Has a (xs ++ ys)
  Has-left [] ys a h = absurd h
  Has-left (x ∷ xs) ys a (inl e) = inl e
  Has-left (x ∷ xs) ys a (inr h) = inr (Has-left xs ys a h)

  Has-right : {A : Type 0} (xs ys : List A) (a : A) → Has a ys → Has a (xs ++ ys)
  Has-right [] ys a h = h
  Has-right (x ∷ xs) ys a h = inr (Has-right xs ys a h)

  At-stages :
      (i l k : ℕ) (stages : List PipelineStage) (stage : PipelineStage) (step : PipelineStep)
      → At l stage stages
      → At k step stage.steps
      → Has (step_job run_id stage.name (i + l) k step) (stage_jobs run_id i stages)
  unfolding stage_jobs
  At-stages i l k [] stage step a c = absurd a
  At-stages i zero k (s ∷ stages) stage step a c =
      let q : i ≡ i + 0 = omega arith in
      subst (λ m. Has (step_job run_id stage.name m k step) (stage_jobs run_id i (s ∷ stages))) q
        (Has-left _ (stage_jobs run_id (suc i) stages) _ (
          subst
            (λ (x : PipelineStage).
              Has (step_job run_id stage.name i k step) (step_jobs run_id x.name i 0 x.steps))
            (sym a)
            (subst
              (λ m.
                Has (step_job run_id stage.name i m step)
                  (step_jobs run_id stage.name i 0 stage.steps))
              (none_before k) (At-steps stage.name i 0 k stage.steps step c))))
  At-stages i (suc l) k (s ∷ stages) stage step a c =
      let q : suc i + l ≡ i + suc l = omega arith in
      Has-right (step_jobs run_id s.name i 0 s.steps) _ _ (
        subst (λ m. Has (step_job run_id stage.name m k step) (stage_jobs run_id (suc i) stages)) q
          (At-stages (suc i) l k stages stage step a c))

  -- The row is of a step of the config.
  abbrev pub IsOfConfig : Option PipelineConfig → Job → Type 0
  IsOfConfig config row =
      (i : ℕ) × (stage : PipelineStage) × At i stage (stages_of config)
      × ((j : ℕ) × (step : PipelineStep) × At j step stage.steps
          × IsStepRow run_id stage step i j row)

  -- Each step of the config has its row.
  abbrev pub HasSteps : Option PipelineConfig → List Job → Type 0
  HasSteps config rows =
      (i j : ℕ) (stage : PipelineStage) (step : PipelineStep)
      → At i stage (stages_of config)
      → At j step stage.steps
      → (row : Job) × Has row rows × IsStepRow run_id stage step i j row

  pub new_row-IsOfConfig :
      (config : Option PipelineConfig) (x now : ℕ) (n : NewJob)
      → Has n (config_jobs run_id config)
      → IsOfConfig config (new_row x now n)
  new_row-IsOfConfig none x now n h = absurd h
  new_row-IsOfConfig (some config) x now n h =
      let (i, stage, a, (j, step, c, e)) = stages-At 0 (or_else config.stages []) n h in
      let q = ap (λ m. step_job run_id stage.name m j step) (sym (none_before i)) ∙ e in
      (
        i,
        stage,
        a,
        (
          j,
          step,
          c,
          subst (λ m. IsStepRow run_id stage step i j (new_row x now m)) q
              (step_row run_id x now i j stage step),
        ),
      )

  -- A job that is sent for each step.
  pub config_jobs-step :
      (config : Option PipelineConfig) (now i j : ℕ) (stage : PipelineStage) (step : PipelineStep)
      → At i stage (stages_of config)
      → At j step stage.steps
      → (n : NewJob) × Has n (config_jobs run_id config)
        × ((x : ℕ) → IsStepRow run_id stage step i j (new_row x now n))
  config_jobs-step none now i j stage step a c = absurd a
  config_jobs-step (some config) now i j stage step a c = (
    step_job run_id stage.name i j step,
    subst
        (λ m.
          Has (step_job run_id stage.name m j step)
            (stage_jobs run_id 0 (or_else config.stages [])))
        (none_before i) (At-stages 0 i j (or_else config.stages []) stage step a c),
    λ x. step_row run_id x now i j stage step,
  )
