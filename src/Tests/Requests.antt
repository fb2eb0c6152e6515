-- ===== src/Tests/Requests.antt =====
-- Requests for pipelines and runs, and the seed.
use postgres_pipeline_orches.Common.{
  ◌==◌, true, ◌≡◌, refl, inl, none, some, List, [], ◌∷◌, arith, Has,
}
use postgres_pipeline_orches.Common.Int.{pos}
use postgres_pipeline_orches.Common.Text.{codes}
use postgres_pipeline_orches.Common.Json.{get}
use postgres_pipeline_orches.Database.{PipelineRun}
use postgres_pipeline_orches.Runs.{Pipeline}
use postgres_pipeline_orches.Pipelines.{
  PipelineDto, find_one, create, save, update_pipeline, remove, one, not_found, server_error, post,
  patch, delete, handle,
}
use postgres_pipeline_orches.Pipelines.Seed.{seed_pipelines_if_empty}
use postgres_pipeline_orches.Pipelines.Seeded.{seeded_unmatched}
use postgres_pipeline_orches.Dashboard.{
  PipelineStatsRow, pipeline_stats, joined, count_runs, last_run, durations, avg_duration,
}
use postgres_pipeline_orches.Dashboard.Counts.{IsRowOf, stats_row_lem}
use postgres_pipeline_orches.Webhooks.{handle_push, string_at}
use postgres_pipeline_orches.Webhooks
use postgres_pipeline_orches.Tests.Samples.{queued, run_7}
use postgres_pipeline_orches.Tests.Triggers.{frontend, store, next_ids, in_order, github_push}

abbrev renamed : PipelineDto
renamed = record {
  id = none;
  name = some (codes "web");
  repository = none;
  config = none;
  created_at = none;
}

abbrev named_web : Pipeline
named_web = record frontend { name = codes "web" }

patched :
    handle (patch 3 renamed) store ≡ (record store { pipelines = named_web ∷ [] }, one named_web)
unfolding handle find_one update_pipeline save
patched = refl

-- A body that has the id of a stored pipeline overwrites it, where POST means a new one.
posted :
    handle (post 5 420 (record renamed { id = some 3 })) store
    ≡ (record store { pipelines = named_web ∷ [] }, one named_web)
unfolding handle create save
posted = refl

refused : handle (post 5 420 renamed) store ≡ (store, server_error)
unfolding handle create save
refused = refl

-- The run 7 of the pipeline holds a deployment lock.
kept : handle (delete (λ r. r == 7) 3) store ≡ (store, not_found)
unfolding handle remove
kept = refl

abbrev frontend_stats : PipelineStatsRow
frontend_stats = record {
  pipeline_id = 3;
  name = codes "frontend";
  total_runs = 1;
  success_count = 0;
  failure_count = 0;
  avg_duration_seconds = none;
  last_run_at = some 90;
}

frontend_shown : Has frontend_stats (pipeline_stats 1000 (run_7 ∷ []) (frontend ∷ []))
unfolding pipeline_stats joined count_runs last_run durations avg_duration
frontend_shown = inl refl

stats_row_lem_example :
    (p : Pipeline) × Has p (frontend ∷ []) × IsRowOf 1000 (run_7 ∷ []) p frontend_stats
stats_row_lem_example =
    stats_row_lem 1000 (run_7 ∷ []) (frontend ∷ []) frontend_stats frontend_shown

-- A run of 2.5 seconds.
abbrev ended_run : PipelineRun
ended_run = record run_7 { started_at = some 1000000; completed_at = some 3500000 }

average : avg_duration (some ended_run ∷ none ∷ some run_7 ∷ []) ≡ some (pos 3)
unfolding avg_duration durations
average = refl

-- After a month the pipeline, whose run is older, has no row.
frontend_hidden : pipeline_stats 2592000000090 (run_7 ∷ []) (frontend ∷ []) ≡ []
unfolding pipeline_stats joined count_runs last_run durations avg_duration
frontend_hidden = refl

seeded_unmatched_example :
    let s =
      (seed_pipelines_if_empty
        (λ k. true)
        next_ids
        next_ids
        (record { pipelines = []; db = queued })).0 in
    handle_push 8 in_order 300 github_push s ≡ (s, Webhooks.not_found (codes "example/frontend"))
unfolding string_at get
seeded_unmatched_example =
    seeded_unmatched next_ids next_ids queued 8 in_order 300 github_push 101
      (codes "xample/frontend") refl refl (omega arith)
