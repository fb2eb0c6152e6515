-- ===== src/Tests/Starts.antt =====
-- The starts of two processes on empty tables.
use postgres_pipeline_orches.Common.{
  ◌<◌, ◌≡◌, refl, true, false, Option, none, some, List, [], ◌∷◌, ◌==◌, length,
}
use postgres_pipeline_orches.Common.Text.{Text, codes}
use postgres_pipeline_orches.Pipelines.Seed.{pipeline_seed, seed_rows, seed_pipelines_if_empty}
use postgres_pipeline_orches.Pipelines.{create}
use postgres_pipeline_orches.Startup.{
  Schema, Statements, StartCall, database, log_stream, start_call, start_calls, init_database,
  ensure_pipeline_stats_mat_view, ensure_sync_pipeline_run_status_trigger,
}
use postgres_pipeline_orches.Startup.Restarts.{starts_settle}
use postgres_pipeline_orches.Startup.HalfSeed.{half_seed_stays}
use postgres_pipeline_orches.Tests.Samples.{queued}
use postgres_pipeline_orches.Tests.Triggers.{next_ids}

abbrev bare : Schema
bare = record {
  store = record { pipelines = []; db = queued };
  view = none;
  refresh_function = false;
  run_trigger = false;
  log_trigger = false;
}

abbrev all_through : Statements
all_through = record { counted = true; saves = λ k. true; view_made = true; trigger_made = true }

-- The connection is lost behind the first row.
abbrev broken_off : Statements
broken_off = record all_through { saves = λ k. k == 0 }

abbrev sync : Option Text
sync = some (codes "true")

abbrev later_starts : List StartCall
later_starts =
    database none all_through next_ids next_ids 500
    ∷ database sync all_through next_ids next_ids 600
    ∷ log_stream sync true false
    ∷ []

seeds_bare : (start_call (database sync all_through next_ids next_ids 400) bare).1 ≡ true
unfolding start_call init_database seed_pipelines_if_empty seed_rows create
    ensure_pipeline_stats_mat_view ensure_sync_pipeline_run_status_trigger
seeds_bare = refl

starts_settle_example :
    let (a, seeded) = start_call (database sync all_through next_ids next_ids 400) bare in
    let (b, told) = start_call (log_stream sync true true) a in start_calls later_starts b ≡ b
unfolding start_call
starts_settle_example =
    starts_settle sync sync all_through next_ids next_ids 400 true true later_starts bare refl refl
      seeds_bare refl

half_seed_stays_example :
    let (a, done) = start_call (database sync broken_off next_ids next_ids 400) bare in
    (done ≡ false)
    × ((start_calls later_starts a).store ≡ a.store)
    × (length a.store.pipelines < length pipeline_seed)
half_seed_stays_example =
    half_seed_stays sync broken_off next_ids next_ids 400 later_starts bare refl refl refl refl refl
