-- ===== src/LoadTests/Client.antt =====
-- What the scripts of `src/load-testing/scripts` send, what they read of a response, and their `setup`.
use postgres_pipeline_orches.Common.{
  ℕ, Bool, not, Option, none, some, List, [], ◌∷◌, ◌==◌, if◌then◌else◌, find?,
}
use postgres_pipeline_orches.Common.Text.{Text, codes}
use postgres_pipeline_orches.Common.Json.{Json}
use postgres_pipeline_orches.Executor.{includes}

-- The requests. All runs are triggered as 'manual', which the handler puts in for a missing type too. A
-- run or a job is named by an id that a response had.
pub data Request : Type 0 where
  get_pipelines : Request
  post_run : (pipeline_id : ℕ) → (trigger_metadata : Option Json) → Request
  get_runs : (pipeline_id : ℕ) → Request
  get_jobs : (run_id : ℕ) → Request
  get_logs : (run_id job_id : ℕ) → Request
  get_pipeline_stats : Request
  get_deployment_locks : Request

-- What is read of an entry of a list: its `id`, which all rows of the server have, and its `name`,
-- empty where it has none.
pub record Entry : Type 0 where
  pub id : ℕ
  pub name : Text

-- What is read of a body: a list, or an object with its `id` and its `jobs`, `none` where these are no
-- list. `no_json` is a body that JSON cannot read, where `json()` throws.
pub data Body : Type 0 where
  listed : List Entry → Body
  object : (id : Option ℕ) → (jobs : Option (List Entry)) → (run_jobs : Option (List Entry)) → Body
  no_json : Body

-- `duration` is the `timings.duration`, in milliseconds.
pub record Response : Type 0 where
  pub status : ℕ
  pub duration : ℕ
  pub body : Body

-- The metrics, a sample at a time.
pub data Sample : Type 0 where
  trigger_latency : (ms : ℕ) → Sample
  list_runs_latency : (ms : ℕ) → Sample
  run_with_jobs_latency : (ms : ℕ) → Sample
  dashboard_latency : (ms : ℕ) → Sample
  time_to_first_job : (ms : ℕ) → Sample
  time_to_first_log : (ms : ℕ) → Sample
  error_rate : Bool → Sample

-- `list[0]?.id`
abbrev pub first_id : List Entry → Option ℕ
first_id [] = none
first_id (e ∷ es) = some e.id

-- The `setup` of mass-enqueue, of log-streaming and of mixed-load; `none` where it throws.
abbrev pub first_of : Response → Option ℕ
first_of r =
    if not (r.status == 200)
    then none
    else elim r.body [ listed es ↦ first_id es | object id jobs run_jobs ↦ none | no_json ↦ none ]

-- `withDeploy || list[0]`
abbrev pub or_first : Option Entry → List Entry → Option ℕ
or_first none es = first_id es
or_first (some e) es = some e.id

module _ (to_lower_case : Text → Text) where
  abbrev pub is_backend : Entry → Bool
  is_backend e = includes (to_lower_case e.name) (codes "backend")

  -- The `setup` of advisory-lock.
  abbrev pub backend_of : Response → Option ℕ
  backend_of r = if not (r.status == 200) then none else elim r.body [
    | listed es ↦ or_first (find? is_backend es) es
    | object id jobs run_jobs ↦ none
    | no_json ↦ none
  ]

-- The first argument is how a response is read, the second PIPELINE_ID, `none` where it is not set or
-- empty.
module _ {ℓ} {W : Type ℓ} (serve : Request → W → W × Response) where
  unfoldable pub setup : (Response → Option ℕ) → Option ℕ → W → W × Option ℕ
  setup pick (some id) w = (w, some id)
  setup pick none w = let (w', r) = serve get_pipelines w in (w', pick r)

  abbrev pub mass_setup : Option ℕ → W → W × Option ℕ
  mass_setup = setup first_of

  abbrev pub streaming_setup : Option ℕ → W → W × Option ℕ
  streaming_setup = setup first_of

  abbrev pub mixed_setup : Option ℕ → W → W × Option ℕ
  mixed_setup = setup first_of

  abbrev pub lock_setup : (Text → Text) → Option ℕ → W → W × Option ℕ
  lock_setup to_lower_case = setup (backend_of to_lower_case)
