-- ===== src/Pipelines/Seed.antt =====
-- `seedPipelinesIfEmpty` of `src/database/database-seed.service.ts`, with the data of
-- `src/database/seed/pipeline.seed.ts`.
use postgres_pipeline_orches.Common.{
  ℕ, suc, Bool, true, false, if◌then◌else◌, none, some, List, [], ◌∷◌,
}
use postgres_pipeline_orches.Common.Int.{pos}
use postgres_pipeline_orches.Common.Text.{Text, codes}
use postgres_pipeline_orches.Runs.{PipelineStep, PipelineStage, PipelineConfig, Pipeline, Store}
use postgres_pipeline_orches.Pipelines.{PipelineDto, create}

abbrev step_of : Text → Text → ℕ → PipelineStep
step_of name command priority = record {
  name = name;
  command = command;
  priority = some (pos priority);
}

abbrev config_of : List PipelineStage → PipelineConfig
config_of stages = record { stages = some stages }

abbrev npm_build : PipelineStep
npm_build = step_of (codes "build") (codes "npm run build") 5

abbrev build_stage : PipelineStage
build_stage = record {
  name = codes "build";
  steps = step_of (codes "install") (codes "npm ci") 5 ∷ npm_build ∷ [];
}

abbrev pub frontend_app : PipelineDto
frontend_app = record {
  id = none;
  created_at = none;
  name = some (codes "frontend-app");
  repository = some (codes "https://github.com/example/frontend-app");
  config = some (
      config_of (
        build_stage
        ∷ record { name = codes "test"; steps = step_of (codes "test") (codes "npm test") 5 ∷ [] }
        ∷ []));
}

abbrev pub backend_api : PipelineDto
backend_api = record {
  id = none;
  created_at = none;
  name = some (codes "backend-api");
  repository = some (codes "https://github.com/example/backend-api");
  config = some (
      config_of (
        build_stage
        ∷ record {
          name = codes "deploy";
          steps =
              step_of (codes "deploy-staging") (codes "./deploy.sh staging") 5
              ∷ step_of (codes "deploy-production") (codes "./deploy.sh production") 3
              ∷ [];
        }
        ∷ []));
}

abbrev pub docs : PipelineDto
docs = record {
  id = none;
  created_at = none;
  name = some (codes "docs");
  repository = some (codes "https://github.com/example/docs");
  config = some (config_of (record { name = codes "build"; steps = npm_build ∷ [] } ∷ []));
}

abbrev pub pipeline_seed : List PipelineDto
pipeline_seed = frontend_app ∷ backend_api ∷ docs ∷ []

-- The loop over the rows: `saves k` tells whether the `save` of the row at `k` goes through, and
-- `ids k` and `times k` are what the database gives to it. A save that throws ends the loop.
unfoldable pub seed_rows :
    (saves : ℕ → Bool) (ids times : ℕ → ℕ) → ℕ → List PipelineDto → Store → Store × Bool
seed_rows saves ids times k [] s = (s, true)
seed_rows saves ids times k (row ∷ rows) s =
    let rest = seed_rows saves ids times (suc k) rows (create (ids k) (times k) row s).0 in
    if saves k then rest else (s, false)

-- `count > 0` returns at once.
abbrev seed_counted : (saves : ℕ → Bool) (ids times : ℕ → ℕ) → List Pipeline → Store → Store × Bool
seed_counted saves ids times [] s = seed_rows saves ids times 0 pipeline_seed s
seed_counted saves ids times (p ∷ ps) s = (s, true)

unfoldable pub seed_pipelines_if_empty :
    (saves : ℕ → Bool) (ids times : ℕ → ℕ) → Store → Store × Bool
unfolding seed_rows
seed_pipelines_if_empty saves ids times s = seed_counted saves ids times s.pipelines s
