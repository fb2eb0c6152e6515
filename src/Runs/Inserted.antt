-- ===== src/Runs/Inserted.antt =====
-- The rows that the INSERTs of `triggerRun` leave in `jobs`.
use postgres_pipeline_orches.Common.{
  All-append, ℕ, suc, ◌≤◌, ◌≡◌, ◌≢◌, refl, sym, subst, ◌∙◌, inl, inr, Option, none, some, List, [],
  ◌∷◌, ◌++◌, arith, All, Has, Has-append, append_assoc, append-nil, or_else,
}
use postgres_pipeline_orches.Common.Text.{Text}
use postgres_pipeline_orches.Database.{running, Job, Db}
use postgres_pipeline_orches.JobQueue.{NewJob, new_row, insert, call, insert_new_job}
use postgres_pipeline_orches.JobQueue.Protocol.{IsSound, Allowed, call-IsSound}
use postgres_pipeline_orches.Runs.Trigger.{
  PipelineStep, PipelineStage, PipelineConfig, step_jobs, stage_jobs, config_jobs, insert_all,
}

-- The rows of the jobs, with the ids from `k` on.
unfoldable pub rows_of : (ℕ → ℕ) → ℕ → ℕ → List NewJob → List Job
rows_of ids now k [] = []
rows_of ids now k (n ∷ ns) = new_row (ids k) now n ∷ rows_of ids now (suc k) ns

pub insert_all-jobs :
    (ids : ℕ → ℕ) (now k : ℕ) (ns : List NewJob) (db : Db)
    → (insert_all ids now k ns db).jobs ≡ db.jobs ++ rows_of ids now k ns
unfolding insert_all insert_new_job rows_of
insert_all-jobs ids now k [] db = sym (append-nil db.jobs)
insert_all-jobs ids now k (n ∷ ns) db =
    insert_all-jobs ids now (suc k) ns (insert_new_job (ids k) now n db).0
    ∙ append_assoc db.jobs (new_row (ids k) now n ∷ []) (rows_of ids now (suc k) ns)

module _ (run_id : ℕ) where
  abbrev pub IsOfRun : NewJob → Type 0
  IsOfRun n = n.pipeline_run_id ≡ run_id

  steps-IsOfRun :
      (stage : Text) (i j : ℕ) (steps : List PipelineStep)
      → All IsOfRun (step_jobs run_id stage i j steps)
  unfolding step_jobs
  steps-IsOfRun stage i j [] = tt
  steps-IsOfRun stage i j (s ∷ steps) = (refl, steps-IsOfRun stage i (suc j) steps)

  stages-IsOfRun : (i : ℕ) (stages : List PipelineStage) → All IsOfRun (stage_jobs run_id i stages)
  unfolding stage_jobs
  stages-IsOfRun i [] = tt
  stages-IsOfRun i (s ∷ stages) =
      All-append IsOfRun _ _ (steps-IsOfRun s.name i 0 s.steps) (stages-IsOfRun (suc i) stages)

  pub jobs-IsOfRun : (config : Option PipelineConfig) → All IsOfRun (config_jobs run_id config)
  jobs-IsOfRun none = tt
  jobs-IsOfRun (some config) = stages-IsOfRun 0 (or_else config.stages [])

  -- No stored job has an id that is still to come, and no job of the run is running.
  pub record IsFresh (ids : ℕ → ℕ) (k : ℕ) (jobs : List Job) : Type 0 where
    pub new_ids : (m : ℕ) (j : Job) → k ≤ m → Has j jobs → j.id ≢ ids m
    pub none_runs : (j : Job) → Has j jobs → j.status ≡ running → j.pipeline_run_id ≢ run_id

  insert-IsFresh :
      (ids : ℕ → ℕ) (now k : ℕ) (n : NewJob) (jobs : List Job)
      → ((m n : ℕ) → m ≢ n → ids m ≢ ids n)
      → IsFresh ids k jobs
      → IsFresh ids (suc k) (jobs ++ new_row (ids k) now n ∷ [])
  insert-IsFresh ids now k n jobs apart f = record {
    new_ids = λ m j h i. elim (Has-append jobs (new_row (ids k) now n ∷ []) j i) [
      | inl a ↦ f.new_ids m j (omega (arith, h)) a
      | inr a ↦ elim a [
        | inl e ↦ subst (λ (x : Job). x.id ≢ ids m) e (apart k m (λ q. omega (arith, h, q)))
        | inr b ↦ absurd b
      ]
    ];
    none_runs = λ j i. elim (Has-append jobs (new_row (ids k) now n ∷ []) j i) [
      | inl a ↦ f.none_runs j a
      | inr a ↦ elim a [
        | inl e ↦ subst (λ (x : Job). x.status ≡ running → x.pipeline_run_id ≢ run_id) e (λ q. cc)
        | inr b ↦ absurd b
      ]
    ];
  }

  insert-Allowed :
      (ids : ℕ → ℕ) (now k : ℕ) (n : NewJob) (jobs : List Job)
      → IsOfRun n
      → IsFresh ids k jobs
      → Allowed jobs (insert (ids k) now n)
  insert-Allowed ids now k n jobs of_run f j m =
      (f.new_ids k j (omega arith) m, λ r e. absurd (f.none_runs j m r (e ∙ of_run)))

  pub insert_all-IsSound :
      (ids : ℕ → ℕ) (now k : ℕ) (ns : List NewJob) (db : Db)
      → ((m n : ℕ) → m ≢ n → ids m ≢ ids n)
      → All IsOfRun ns
      → IsFresh ids k db.jobs
      → IsSound db.jobs
      → IsSound (insert_all ids now k ns db).jobs
  unfolding insert_all insert_new_job call
  insert_all-IsSound ids now k [] db apart of_run f s = s
  insert_all-IsSound ids now k (n ∷ ns) db apart of_run f s =
      insert_all-IsSound ids now (suc k) ns (insert_new_job (ids k) now n db).0 apart of_run.1
        (insert-IsFresh ids now k n db.jobs apart f)
        (call-IsSound (insert (ids k) now n) db (insert-Allowed ids now k n db.jobs of_run.0 f) s)
