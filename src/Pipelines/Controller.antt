-- ===== src/Pipelines/Controller.antt =====
-- `src/api/pipelines/pipelines.controller.ts`, and `trigger` of `src/api/runs/runs.controller.ts`.
use postgres_pipeline_orches.Common.{ℕ, Bool, Option, none, some, List, if◌then◌else◌, or_else}
use postgres_pipeline_orches.Common.Text.{Text, codes}
use postgres_pipeline_orches.Common.Json.{Json}
use postgres_pipeline_orches.Database.{PipelineRun}
use postgres_pipeline_orches.Runs.{
  Pipeline, Store, Triggered, triggered, pipeline_not_found, run_not_created, insert_failed,
  Inserts, trigger_run,
}
use postgres_pipeline_orches.Pipelines.Service.{
  PipelineDto, find_all, find_one, create, update_pipeline, remove,
}

-- `server_error` is an Error that a handler lets pass.
pub data Reply : Type 0 where
  list_of : List Pipeline → Reply
  one : Pipeline → Reply
  run_of : PipelineRun → Reply
  no_content not_found server_error : Reply

abbrev pub one_or : Reply → Option Pipeline → Reply
one_or r none = r
one_or r (some p) = one p

abbrev pub run_reply : Triggered → Reply
run_reply (triggered run) = run_of run
run_reply pipeline_not_found = server_error
run_reply run_not_created = server_error
run_reply insert_failed = server_error

-- The bodies of the requests; `id`, `now` and `made` of the first and the last are what the database
-- makes.
pub data Request : Type 0 where
  get_all : Request
  get_one : (id : ℕ) → Request
  post : (id now : ℕ) → PipelineDto → Request
  patch : (id : ℕ) → PipelineDto → Request
  delete : (locked : ℕ → Bool) (id : ℕ) → Request
  post_run : (id : ℕ) (made : Inserts) (now pipeline_id : ℕ) → Option Text → Option Json → Request

abbrev pub patch_found : ℕ → PipelineDto → Store → Option Pipeline → Store × Reply
patch_found id dto s none = (s, not_found)
patch_found id dto s (some p) =
    let (s', q) = update_pipeline id dto s in (s', one_or server_error q)

unfoldable pub handle : Request → Store → Store × Reply
handle get_all s = (s, list_of (find_all s))
handle (get_one id) s = (s, one_or not_found (find_one id s))
handle (post id now dto) s = let (s', p) = create id now dto s in (s', one_or server_error p)
handle (patch id dto) s = patch_found id dto s (find_one id s)
handle (delete locked id) s =
    let (s', ok) = remove locked id s in (s', if ok then no_content else not_found)
handle (post_run id made now pipeline_id trigger_type trigger_metadata) s =
    let (s', t) =
      trigger_run id made now pipeline_id (or_else trigger_type (codes "manual")) trigger_metadata
        s in
    (s', run_reply t)

unfoldable pub handle_all : List Request → Store → Store
handle_all List.[] s = s
handle_all (List.◌∷◌ r rs) s = handle_all rs (handle r s).0
