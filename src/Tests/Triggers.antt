-- ===== src/Tests/Triggers.antt =====
-- A run of a pipeline with two stages.
use postgres_pipeline_orches.Common.{
  ℕ, ◌+◌, ◌≡◌, refl, none, some, List, [], ◌∷◌, Bool, true, false,
}
use postgres_pipeline_orches.Common.Text.{Text, codes}
use postgres_pipeline_orches.Common.Json.{Json, obj, str, end, field, get}
use postgres_pipeline_orches.Runs.{PipelineConfig, Pipeline, Store, Inserts}
use postgres_pipeline_orches.JobQueue.{NewJob}
use postgres_pipeline_orches.Webhooks.{get_repo_from_payload, string_at}
use postgres_pipeline_orches.Webhooks.Push.{Started}
use postgres_pipeline_orches.Tests.Samples.{queued}

abbrev pub two_stages : PipelineConfig
two_stages = record {
  stages = some (
      record {
        name = codes "build";
        steps =
            record { name = codes "install"; command = codes "npm ci"; priority = none }
            ∷ record { name = codes "build"; command = codes "npm run build"; priority = none }
            ∷ [];
      }
      ∷ record {
        name = codes "test";
        steps = record { name = codes "test"; command = codes "npm test"; priority = none } ∷ [];
      }
      ∷ []);
}

abbrev pub frontend : Pipeline
frontend = record {
  id = 3;
  name = codes "frontend";
  repository = codes "example/frontend";
  config = some two_stages;
  created_at = 10;
}

abbrev pub store : Store
store = record { pipelines = frontend ∷ []; db = queued }

abbrev pub next_ids : ℕ → ℕ
next_ids k = k + 10

-- All INSERTs take effect, in the order in which they are sent.
abbrev pub in_order : Inserts
in_order = record { ids = next_ids; arrive = λ ns. (ns, true) }

-- The first INSERT fails.
abbrev but_first : List NewJob → List NewJob × Bool
but_first [] = ([], true)
but_first (n ∷ ns) = (ns, false)

abbrev failing : Inserts
failing = record { ids = next_ids; arrive = but_first }

-- What GitHub sends, as far as it is read.
abbrev pub github_push : Json
github_push = obj (
    field (codes "repository")
      (obj (field (codes "full_name") (str (codes "example/frontend")) end)) end)

repo_of : get_repo_from_payload github_push ≡ some (codes "example/frontend")
unfolding get_repo_from_payload string_at get
repo_of = refl
