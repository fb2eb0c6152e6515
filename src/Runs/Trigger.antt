-- ===== src/Runs/Trigger.antt =====
-- `triggerRun` of `src/api/runs/runs.service.ts`.
use postgres_pipeline_orches.Common.{
  ℕ, suc, Bool, if◌then◌else◌, Option, none, some, List, [], ◌∷◌, ◌++◌, ◌==◌, find?, or_else,
}
use postgres_pipeline_orches.Common.Int.{ℤ, pos}
use postgres_pipeline_orches.Common.Text.{Text}
use postgres_pipeline_orches.Common.Json.{Json, obj, end}
use postgres_pipeline_orches.Database.{pending, PipelineRun, Db}
use postgres_pipeline_orches.JobQueue.{NewJob, insert_new_job}

-- `src/queue/dto/pipeline.dto.ts`, without the variables `env`, which no code reads.
pub record PipelineStep : Type 0 where
  pub name : Text
  pub command : Text
  pub priority : Option ℤ

pub record PipelineStage : Type 0 where
  pub name : Text
  pub steps : List PipelineStep

pub record PipelineConfig : Type 0 where
  pub stages : Option (List PipelineStage)

-- `src/database/entities/pipeline.entity.ts`, its `config` as `triggerRun` reads it, and without
-- `updated_at`, which no code reads.
pub record Pipeline : Type 0 where
  pub id : ℕ
  pub name : Text
  pub repository : Text
  pub config : Option PipelineConfig
  pub created_at : ℕ

pub record Store : Type 0 where
  pub pipelines : List Pipeline
  pub db : Db

-- `throw new Error(…)` is a value.
pub data Triggered : Type 0 where
  triggered : PipelineRun → Triggered
  pipeline_not_found : Triggered
  run_not_created : Triggered
  insert_failed : Triggered

-- `createPipelineRun`, whose `id` is the uuid that the database makes.
abbrev pub new_run : ℕ → ℕ → ℕ → Text → Option Json → PipelineRun
new_run id now pipeline_id trigger_type trigger_metadata = record {
  id = id;
  pipeline_id = pipeline_id;
  trigger_type = trigger_type;
  trigger_metadata = some (or_else trigger_metadata (obj end));
  status = pending;
  started_at = none;
  completed_at = none;
  created_at = now;
}

abbrev pub create_pipeline_run : PipelineRun → Db → Db
create_pipeline_run run db = record db { runs = db.runs ++ run ∷ [] }

-- The two `forEach`, from the indices of a stage and of a step.
abbrev pub step_job : ℕ → Text → ℕ → ℕ → PipelineStep → NewJob
step_job run_id stage stage_index step_index step = record {
  pipeline_run_id = run_id;
  stage = stage;
  step_name = step.name;
  command = step.command;
  priority = or_else step.priority (pos 5);
  stage_order = stage_index;
  step_order = step_index;
}

unfoldable pub step_jobs : ℕ → Text → ℕ → ℕ → List PipelineStep → List NewJob
step_jobs run_id stage stage_index step_index [] = []
step_jobs run_id stage stage_index step_index (step ∷ steps) =
    step_job run_id stage stage_index step_index step
    ∷ step_jobs run_id stage stage_index (suc step_index) steps

unfoldable pub stage_jobs : ℕ → ℕ → List PipelineStage → List NewJob
stage_jobs run_id stage_index [] = []
stage_jobs run_id stage_index (stage ∷ stages) =
    step_jobs run_id stage.name stage_index 0 stage.steps
    ++ stage_jobs run_id (suc stage_index) stages

-- `if (config?.stages?.length)`; no stage makes no job.
abbrev pub config_jobs : ℕ → Option PipelineConfig → List NewJob
config_jobs run_id none = []
config_jobs run_id (some config) = stage_jobs run_id 0 (or_else config.stages [])

-- What the database makes of the INSERTs, which `Promise.all` sends at once: the ids of the rows, and
-- for the jobs of a run those whose INSERTs take effect, in the order in which they do, and whether all
-- go through.
pub record Inserts : Type 0 where
  pub ids : ℕ → ℕ
  pub arrive : List NewJob → List NewJob × Bool

-- The INSERTs that take effect.
unfoldable pub insert_all : (ℕ → ℕ) → ℕ → ℕ → List NewJob → Db → Db
insert_all ids now k [] db = db
insert_all ids now k (n ∷ ns) db = insert_all ids now (suc k) ns (insert_new_job (ids k) now n db).0

-- The part of `triggerRun` behind the lookup of the pipeline. An INSERT that throws leaves the run and
-- the jobs of the others.
unfoldable pub start_run : Inserts → ℕ → Pipeline → PipelineRun → Store → Store × Triggered
unfolding insert_all
start_run made now pipeline run_row s =
    let db = create_pipeline_run run_row s.db in
    elim (find? (λ r. r.id == run_row.id) db.runs) [
      | none ↦ (record s { db = db }, run_not_created)
      | some run ↦
          let (jobs, through) = made.arrive (config_jobs run.id pipeline.config) in
          (
            record s { db = insert_all made.ids now 0 jobs db },
            if through then triggered run else insert_failed,
          )
    ]

unfoldable pub trigger_run : ℕ → Inserts → ℕ → ℕ → Text → Option Json → Store → Store × Triggered
unfolding start_run
trigger_run id made now pipeline_id trigger_type trigger_metadata s =
    elim (find? (λ p. p.id == pipeline_id) s.pipelines) [
      | none ↦ (s, pipeline_not_found)
      | some pipeline ↦
          start_run made now pipeline (new_run id now pipeline_id trigger_type trigger_metadata) s
    ]
