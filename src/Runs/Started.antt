-- ===== src/Runs/Started.antt =====
-- What `triggerRun` leaves in the tables.
use postgres_pipeline_orches.Common.{
  ℕ, ◌≡◌, refl, Bool, true, if◌then◌else◌, Option, none, some, List, [], ◌∷◌, ◌++◌, arith, ◌==◌,
  find?, All, Has,
}
use postgres_pipeline_orches.Common.Text.{Text}
use postgres_pipeline_orches.Common.Json.{Json}
use postgres_pipeline_orches.Database.{Job, PipelineRun}
use postgres_pipeline_orches.JobQueue.{NewJob}
use postgres_pipeline_orches.Runs.Trigger.{
  PipelineConfig, Pipeline, Store, triggered, insert_failed, Inserts, new_run, create_pipeline_run,
  config_jobs, insert_all, start_run, trigger_run,
}
use postgres_pipeline_orches.Runs.Steps.{IsOfConfig, HasSteps}

find-new :
    (run : PipelineRun) (runs : List PipelineRun)
    → find? (λ r. r.id == run.id) runs ≡ none
    → find? (λ r. r.id == run.id) (runs ++ run ∷ []) ≡ some run
find-new run [] h = ground arith
find-new run (r ∷ runs) h = ground (arith, find-new run runs)

-- An INSERT that takes effect was sent, and if all go through then each takes effect.
pub record ArriveAsSent (made : Inserts) : Type 0 where
  pub sent : (ns : List NewJob) (n : NewJob) → Has n (made.arrive ns).0 → Has n ns
  pub arrived :
      (ns : List NewJob) (n : NewJob)
      → (made.arrive ns).1 ≡ true
      → Has n ns
      → Has n (made.arrive ns).0

-- What is added to `jobs`: rows of the config's steps, and if all INSERTs go through one for each step.
abbrev pub AddsSteps : ℕ → Option PipelineConfig → Bool → List Job → List Job → Type 0
AddsSteps run_id config through before after =
    (rows : List Job) × (after ≡ before ++ rows)
    × All (IsOfConfig run_id config) rows
    × (through ≡ true → HasSteps run_id config rows)

module _ (id : ℕ) (made : Inserts) (now pipeline_id : ℕ) (trigger_type : Text)
    (trigger_metadata : Option Json) (s : Store) where
  abbrev pub run : PipelineRun
  run = new_run id now pipeline_id trigger_type trigger_metadata

  abbrev pub arrival : Pipeline → List NewJob × Bool
  arrival p = made.arrive (config_jobs id p.config)

  pub trigger_run_found :
      (p : Pipeline)
      → find? (λ p. p.id == pipeline_id) s.pipelines ≡ some p
      → find? (λ r. r.id == id) s.db.runs ≡ none
      → trigger_run id made now pipeline_id trigger_type trigger_metadata s ≡ (
        record s { db = insert_all made.ids now 0 (arrival p).0 (create_pipeline_run run s.db) },
        if (arrival p).1 then triggered run else insert_failed,
      )
  unfolding trigger_run start_run
  trigger_run_found p e f = rw (e, trigger_run) (rw (find-new run s.db.runs f, start_run) refl)
