-- ===== src/Pipelines/Service.antt =====
-- `src/api/pipelines/pipelines.service.ts`, on the tables that a removal reaches.
use postgres_pipeline_orches.Common.{
  ℕ, Bool, true, false, not, Option, none, some, List, [], ◌∷◌, ◌++◌, ltb, ◌==◌, if◌then◌else◌,
  or_else, any, select, update, find?,
}
use postgres_pipeline_orches.Common.Sorting.{order_by}
use postgres_pipeline_orches.Common.Text.{Text}
use postgres_pipeline_orches.Database.{PipelineRun}
use postgres_pipeline_orches.Runs.{PipelineConfig, Pipeline, Store}

-- A body as an entity: `src/dto/create-pipeline.dto.ts`, `src/dto/update-pipeline.dto.ts`, and the other
-- columns, which `repo.create` and `Object.assign` copy too. Nothing checks a body, so a field may be
-- missing in either.
pub record PipelineDto : Type 0 where
  pub id : Option ℕ
  pub name : Option Text
  pub repository : Option Text
  pub config : Option PipelineConfig
  pub created_at : Option ℕ

-- `ORDER BY created_at DESC`
abbrev pub newer : Pipeline → Pipeline → Bool
newer p q = ltb q.created_at p.created_at

unfoldable pub find_all : Store → List Pipeline
find_all s = order_by newer s.pipelines

unfoldable pub find_one : ℕ → Store → Option Pipeline
find_one id s = find? (λ p. p.id == id) s.pipelines

-- `repo.create(dto)` and `repo.save`. An entity with the id of a stored row updates the columns that it
-- has; any other is inserted, with its own id or the uuid `id` that the database makes, and then no column
-- may be null. The row is the result, `none` where the query throws.
abbrev pub new_pipeline : ℕ → ℕ → PipelineDto → Option Pipeline
new_pipeline id now dto = elim dto.name [
  | none ↦ none
  | some name ↦ elim dto.repository [
    | none ↦ none
    | some repository ↦ elim dto.config [
      | none ↦ none
      | some config ↦ some (record {
        id = or_else dto.id id;
        name = name;
        repository = repository;
        config = some config;
        created_at = or_else dto.created_at now;
      })
    ]
  ]
]

abbrev pub save_new : Option Pipeline → Store → Store × Option Pipeline
save_new none s = (s, none)
save_new (some p) s = (record s { pipelines = s.pipelines ++ p ∷ [] }, some p)

abbrev pub set_columns : PipelineDto → Pipeline → Pipeline
set_columns dto p = record p {
  name = or_else dto.name p.name;
  repository = or_else dto.repository p.repository;
  config = elim dto.config [ none ↦ p.config | some c ↦ some c ];
  created_at = or_else dto.created_at p.created_at;
}

abbrev pub stored : Option ℕ → Store → Option Pipeline
stored none s = none
stored (some id) s = find? (λ p. p.id == id) s.pipelines

unfoldable pub save : ℕ → ℕ → PipelineDto → Store → Store × Option Pipeline
save id now dto s = elim (stored dto.id s) [
  | none ↦ save_new (new_pipeline id now dto) s
  | some p ↦ (
    record s { pipelines = update (λ q. q.id == p.id) (set_columns dto) s.pipelines },
    some (set_columns dto p),
  )
]

unfoldable pub create : ℕ → ℕ → PipelineDto → Store → Store × Option Pipeline
unfolding save
create id now dto s = save id now dto s

-- `Object.assign(pipeline, dto)`: the entity, the id of the body included.
abbrev pub assign : PipelineDto → Pipeline → PipelineDto
assign dto p = record {
  id = some (or_else dto.id p.id);
  name = some (or_else dto.name p.name);
  repository = some (or_else dto.repository p.repository);
  config = elim dto.config [ none ↦ p.config | some c ↦ some c ];
  created_at = some (or_else dto.created_at p.created_at);
}

unfoldable pub update_pipeline : ℕ → PipelineDto → Store → Store × Option Pipeline
unfolding find_one save
update_pipeline id dto s = elim (find_one id s) [
  | none ↦ (s, none)
  | some p ↦ save p.id p.created_at (assign dto p) s
]

-- ON DELETE CASCADE: the runs of the pipeline, and the jobs of those runs. The log lines of those jobs,
-- which go too, are no part of the store.
abbrev pub delete_cascade : ℕ → Store → Store
delete_cascade id s =
    let gone = select (λ (r : PipelineRun). r.pipeline_id == id) s.db.runs in
    record {
      pipelines = select (λ p. not (p.id == id)) s.pipelines;
      db = record {
        jobs = select (λ j. not (any gone (λ r. r.id == j.pipeline_run_id))) s.db.jobs;
        runs = select (λ r. not (r.pipeline_id == id)) s.db.runs;
      };
    }

-- Whether it ends without throwing. A row of `deployment_locks` refers to its run with no ON DELETE, so the
-- DELETE fails where `locked` tells that a run of the pipeline is referred to.
unfoldable pub remove : (ℕ → Bool) → ℕ → Store → Store × Bool
remove locked id s =
    if any s.db.runs (λ (r : PipelineRun). if r.pipeline_id == id then locked r.id else false)
    then (s, false)
    else (if any s.pipelines (λ p. p.id == id) then (delete_cascade id s, true) else (s, false))
