-- ===== src/Webhooks/Push.antt =====
-- What a push does.
use postgres_pipeline_orches.Common.{ℕ, ◌≡◌, Bool, true, if◌then◌else◌, some, Has}
use postgres_pipeline_orches.Common.Text.{Text, codes}
use postgres_pipeline_orches.Common.Json.{Json}
use postgres_pipeline_orches.Database.{pending}
use postgres_pipeline_orches.JobQueue.Protocol.{IsSound}
use postgres_pipeline_orches.JobQueue.Kept.{has_run}
use postgres_pipeline_orches.Runs.{Pipeline, Store, Triggered, Inserts, config_jobs, trigger_run}
use postgres_pipeline_orches.Runs.Started.{AddsSteps}
use postgres_pipeline_orches.Webhooks.GitWebhook.{
  get_repo_from_payload, Answer, accepted, server_error, handle_push,
}

abbrev pub id_of : Pipeline → ℕ
id_of p = p.id

module _ (id : ℕ) (made : Inserts) (now : ℕ) (body : Json) (s : Store) where
  abbrev pushed : Store × Answer
  pushed = handle_push id made now body s

  -- Whether all the INSERTs of the pipeline's run go through.
  abbrev through : Pipeline → Bool
  through p = (made.arrive (config_jobs id p.config)).1

  -- A run of a pipeline whose repository the body names.
  abbrev pub Started : Pipeline → Type 0
  Started p =
      Has p s.pipelines
      × (get_repo_from_payload body ≡ some p.repository)
      × ((handle_push id made now body s).1 ≡ (
          if (made.arrive (config_jobs id p.config)).1
          then accepted id p.id pending
          else server_error))
      × (has_run id (handle_push id made now body s).0.db.runs ≡ true)
      × AddsSteps id p.config (made.arrive (config_jobs id p.config)).1 s.db.jobs
          (handle_push id made now body s).0.db.jobs
      × IsSound (handle_push id made now body s).0.db.jobs

  abbrev after : Pipeline → Store × Triggered
  after p = trigger_run id made now p.id (codes "git_push") (some body) s
