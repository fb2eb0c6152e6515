-- ===== src/Tests/Loads.antt =====
-- The load tests against the application with the pipelines of the seed, or with one pipeline.
use postgres_pipeline_orches.Common.{
  ℕ, ◌+◌, ◌-◌, ◌≤◌, ◌≡◌, ◌≢◌, refl, true, none, some, List, [], ◌∷◌, length,
}
use postgres_pipeline_orches.Common.Sorting.{order_by}
use postgres_pipeline_orches.Runs.{config_jobs, step_jobs, stage_jobs}
use postgres_pipeline_orches.Pipelines.{find_all, create}
use postgres_pipeline_orches.Pipelines.Seed.{seed_rows, seed_pipelines_if_empty}
use postgres_pipeline_orches.Executor.{includes}
use postgres_pipeline_orches.LoadTests.{
  Request, post_run, get_jobs, Sample, trigger_latency, time_to_first_job, setup, lock_setup,
  log_streaming, Api, serve, pass,
}
use postgres_pipeline_orches.LoadTests.FirstJob.{log_streaming_lem}
use postgres_pipeline_orches.Tests.Samples.{queued}
use postgres_pipeline_orches.Tests.Triggers.{two_stages, frontend, store}

abbrev uuid : ℕ → ℕ
uuid k = k + 100

abbrev timing : Request → Api → ℕ
timing request a = 20

-- Date.now(), at every step of the time.
abbrev clock : Api → ℕ
clock a = a.time

abbrev api : Api
api = record { store = store; logs = []; made = 0; time = 1000 }

-- On the pipelines of the seed, advisory-lock picks the backend, wherever the list has it.
abbrev seeded_api : Api
seeded_api = record api {
  store =
      (seed_pipelines_if_empty (λ k. true) uuid (λ k. 100)
        (record { pipelines = []; db = queued })).0;
}

picks_backend : (lock_setup (serve uuid timing) (λ t. t) none seeded_api).1 ≡ some 101
unfolding setup serve find_all seed_pipelines_if_empty seed_rows create includes order_by
picks_backend = refl

has_jobs : config_jobs 100 (some two_stages) ≢ []
unfolding stage_jobs step_jobs
has_jobs e = cc

log_streaming_lem_example :
    let server = serve uuid timing in
    let (v, r) = server (post_run 3 none) api in
    let v' = (server (get_jobs 100) (pass 5000000 v)).0 in
    (rest : List Sample) × ((log_streaming server pass clock 3 api).1
      ≡ trigger_latency r.duration ∷ time_to_first_job (clock v' - clock v) ∷ rest)
    × (length rest ≤ 1)
log_streaming_lem_example = log_streaming_lem uuid timing clock 3 frontend api refl refl has_jobs
