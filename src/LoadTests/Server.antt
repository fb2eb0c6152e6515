-- ===== src/LoadTests/Server.antt =====
-- The application as the server of the load tests: the handlers that their requests reach, each with
-- its status. Only what the scripts read of a body is kept of it.
use postgres_pipeline_orches.Common.{ℕ, suc, ◌+◌, ◌*◌, true, none, some, List, [], map, length}
use postgres_pipeline_orches.Common.Text.{codes}
use postgres_pipeline_orches.Database.{Job, PipelineRun}
use postgres_pipeline_orches.Streaming.{JobLog}
use postgres_pipeline_orches.Runs.{
  Pipeline, Store, Triggered, triggered, pipeline_not_found, run_not_created, insert_failed,
  Inserts, trigger_run,
}
use postgres_pipeline_orches.Runs.Queries.{
  RunWithJobs, Found, found, run_not_found, find_all, get_run_with_jobs, get_job_logs,
}
use postgres_pipeline_orches.Pipelines as Pipelines
use postgres_pipeline_orches.LoadTests.Client.{
  Request, get_pipelines, post_run, get_runs, get_jobs, get_logs, get_pipeline_stats,
  get_deployment_locks, Entry, Body, listed, object, Response,
}

-- The tables that are read, a bound on the uuids that have been made, and the time, in tenths of a
-- microsecond.
pub record Api : Type 0 where
  pub store : Store
  pub logs : List JobLog
  pub made : ℕ
  pub time : ℕ

abbrev pub pipeline_entry : Pipeline → Entry
pipeline_entry p = record { id = p.id; name = p.name }

abbrev pub run_entry : PipelineRun → Entry
run_entry r = record { id = r.id; name = [] }

abbrev pub job_entry : Job → Entry
job_entry j = record { id = j.id; name = [] }

abbrev pub log_entry : JobLog → Entry
log_entry l = record { id = l.id; name = [] }

-- The body of an error, and those that no script reads.
abbrev pub plain : Body
plain = object none none none

abbrev pub trigger_response : ℕ → Triggered → Response
trigger_response ms (triggered run) = record {
  status = 201;
  duration = ms;
  body = object (some run.id) none none;
}
trigger_response ms pipeline_not_found = record { status = 500; duration = ms; body = plain }
trigger_response ms run_not_created = record { status = 500; duration = ms; body = plain }
trigger_response ms insert_failed = record { status = 500; duration = ms; body = plain }

-- All INSERTs go through, in the order in which they are sent.
abbrev pub all_made : (ℕ → ℕ) → Inserts
all_made ids = record { ids = ids; arrive = λ ns. (ns, true) }

abbrev pub jobs_response : ℕ → Found RunWithJobs → Response
jobs_response ms (found r) = record {
  status = 200;
  duration = ms;
  body = object none (some (map job_entry r.jobs)) (some (map job_entry r.jobs));
}
jobs_response ms run_not_found = record { status = 404; duration = ms; body = plain }

abbrev pub ok : ℕ → Body → Response
ok ms body = record { status = 200; duration = ms; body = body }

-- A request takes its time.
abbrev pub served : ℕ → Api → Api
served ms a = record a { time = a.time + 10000 * ms }

-- `uuid k` is the uuid that is made at `k`, and `timing` how many milliseconds a request takes.
module _ (uuid : ℕ → ℕ) (timing : Request → Api → ℕ) where
  abbrev pub answer : Api → Request → (ℕ → Response) → Api × Response
  answer a request response = let ms = timing request a in (served ms a, response ms)

  unfoldable pub serve : Request → Api → Api × Response
  serve get_pipelines a =
      answer a get_pipelines
        (λ ms. ok ms (listed (map pipeline_entry (Pipelines.find_all a.store))))
  serve (post_run pipeline_id metadata) a =
      let (s, t) =
        trigger_run (uuid a.made) (all_made (λ k. uuid (suc (a.made + k)))) a.time pipeline_id
          (codes "manual") metadata a.store in
      let (a', r) = answer a (post_run pipeline_id metadata) (λ ms. trigger_response ms t) in
      (record a' { store = s; made = suc (a.made + length s.db.jobs) }, r)
  serve (get_runs pipeline_id) a =
      answer a (get_runs pipeline_id)
        (λ ms. ok ms (listed (map run_entry (find_all (some pipeline_id) a.store.db))))
  serve (get_jobs run_id) a =
      answer a (get_jobs run_id) (λ ms. jobs_response ms (get_run_with_jobs run_id a.store.db))
  serve (get_logs run_id job_id) a =
      answer a (get_logs run_id job_id)
        (λ ms. ok ms (listed (map log_entry (get_job_logs job_id a.logs))))
  serve get_pipeline_stats a = answer a get_pipeline_stats (λ ms. ok ms plain)
  serve get_deployment_locks a = answer a get_deployment_locks (λ ms. ok ms plain)

-- `sleep`
abbrev pub pass : ℕ → Api → Api
pass t a = record a { time = a.time + t }
