-- ===== src/LoadTests/Scripts.antt =====
-- The iterations of the scripts of `src/load-testing/scripts`. The draws of Math.random() are numbers of
-- millionths.
use postgres_pipeline_orches.Common.{
  ℕ, zero, suc, ◌+◌, ◌-◌, ◌*◌, Bool, true, false, not, Option, none, some, List, [], ◌∷◌, ◌++◌, ltb,
  ◌==◌, if◌then◌else◌, or_else,
}
use postgres_pipeline_orches.Common.Text.{Text, codes}
use postgres_pipeline_orches.Common.Json.{Json, obj, str, num, end, field}
use postgres_pipeline_orches.LoadTests.Client.{
  Request, post_run, get_runs, get_jobs, get_logs, get_pipeline_stats, get_deployment_locks, Entry,
  Body, listed, object, no_json, Response, Sample, trigger_latency, list_runs_latency,
  run_with_jobs_latency, dashboard_latency, time_to_first_job, time_to_first_log, error_rate,
  first_id,
}

-- An iteration: its numbers __VU and __ITER, as JSON writes them, and its draws.
pub record Iteration : Type 0 where
  pub vu : Text
  pub iter : Text
  pub choice : ℕ
  pub again : ℕ
  pub pause : ℕ

abbrev pub mass_metadata : Iteration → Json
mass_metadata d = obj (
    field (codes "source") (str (codes "k6"))
      (field (codes "vu") (num d.vu) (field (codes "iter") (num d.iter) end)))

abbrev pub lock_metadata : Iteration → Json
lock_metadata d =
    obj
      (field (codes "load_test") (str (codes "advisory_lock")) (field (codes "vu") (num d.vu) end))

abbrev pub mixed_metadata : Iteration → Json
mixed_metadata d =
    obj (field (codes "source") (str (codes "k6_mixed")) (field (codes "vu") (num d.vu) end))

-- `payload?.jobs` if it is a list, and `payload?.run?.jobs ?? []` if not; `none` where `json()` throws.
abbrev pub jobs_of : Body → Option (List Entry)
jobs_of (listed es) = some []
jobs_of (object id (some jobs) run_jobs) = some jobs
jobs_of (object id none run_jobs) = some (or_else run_jobs [])
jobs_of no_json = none

abbrev pub first_job : Response → Option (Option ℕ)
first_job r =
    if not (r.status == 200)
    then some none
    else elim (jobs_of r.body) [ none ↦ none | some jobs ↦ some (first_id jobs) ]

-- Whether there are log lines.
abbrev pub has_logs : Response → Option Bool
has_logs r = if not (r.status == 200) then some false else elim r.body [
  | listed [] ↦ some false
  | listed (e ∷ es) ↦ some true
  | object id jobs run_jobs ↦ some false
  | no_json ↦ none
]

abbrev pub run_id_of : Response → Option ℕ
run_id_of r =
    if not (r.status == 201)
    then none
    else elim r.body [ listed es ↦ none | object id jobs run_jobs ↦ id | no_json ↦ none ]

-- The first of the runs, where there is one; `none` where `json()` throws.
abbrev pub first_run : Response → Option (Option ℕ)
first_run r = if not (r.status == 200) then some none else elim r.body [
  | listed es ↦ some (first_id es)
  | object id jobs run_jobs ↦ some none
  | no_json ↦ none
]

-- `now` is Date.now(), and `sleep` takes tenths of a microsecond.
module _ {ℓ} {W : Type ℓ} (serve : Request → W → W × Response) (sleep : ℕ → W → W)
    (now : W → ℕ) where
  -- mass-enqueue.js and advisory-lock.js, which differ in the metadata and in their pause.
  unfoldable pub trigger_once : Json → (pause : ℕ) → ℕ → W → W × List Sample
  trigger_once metadata pause pipeline_id w =
      let (w', r) = serve (post_run pipeline_id (some metadata)) w in
      (sleep pause w', trigger_latency r.duration ∷ error_rate (not (r.status == 201)) ∷ [])

  unfoldable pub mass_enqueue : Iteration → ℕ → W → W × List Sample
  unfolding trigger_once
  mass_enqueue d = trigger_once (mass_metadata d) (1000000 + 2 * d.pause)

  unfoldable pub advisory_lock : Iteration → ℕ → W → W × List Sample
  unfolding trigger_once
  advisory_lock d = trigger_once (lock_metadata d) (2000000 + 3 * d.pause)

  -- The loop for the first job, with the rounds that are left. The last part is its id; `none` where
  -- there is none, or where `json()` has thrown.
  unfoldable pub poll_jobs : ℕ → (run_id since : ℕ) → W → W × List Sample × Option ℕ
  poll_jobs zero run_id since w = (w, [], none)
  poll_jobs (suc i) run_id since w =
      let (w', r) = serve (get_jobs run_id) (sleep 5000000 w) in
      let rest = poll_jobs i run_id since w' in
      elim (first_job r) [
        | none ↦ (w', [], none)
        | some none ↦ rest
        | some (some job_id) ↦ (w', time_to_first_job (now w' - since) ∷ [], some job_id)
      ]

  unfoldable pub poll_logs : ℕ → (run_id job_id since : ℕ) → W → W × List Sample
  poll_logs zero run_id job_id since w = (w, [])
  poll_logs (suc i) run_id job_id since w =
      let (w', r) = serve (get_logs run_id job_id) (sleep 3000000 w) in
      let rest = poll_logs i run_id job_id since w' in
      elim (has_logs r) [
        | none ↦ (w', [])
        | some false ↦ rest
        | some true ↦ (w', time_to_first_log (now w' - since) ∷ [])
      ]

  abbrev pub after_jobs : ℕ → List Sample → W × List Sample × Option ℕ → W × List Sample
  after_jobs run_id triggered (v, samples, none) = (v, triggered ++ samples)
  after_jobs run_id triggered (v, samples, some job_id) =
      let (v', more) = poll_logs 30 run_id job_id (now v) v in (v', triggered ++ samples ++ more)

  -- log-streaming.js
  unfoldable pub log_streaming : ℕ → W → W × List Sample
  unfolding poll_jobs poll_logs
  log_streaming pipeline_id w =
      let (w', r) = serve (post_run pipeline_id none) w in
      let triggered = trigger_latency r.duration ∷ [] in
      elim (run_id_of r) [
        | none ↦ (w', triggered)
        | some run_id ↦ after_jobs run_id triggered (poll_jobs 60 run_id (now w') w')
      ]

  -- The branches of mixed-load.js; `false` is a branch that has thrown.
  abbrev pub mixed_trigger : Iteration → ℕ → W → W × List Sample × Bool
  mixed_trigger d pipeline_id w =
      let (w', r) = serve (post_run pipeline_id (some (mixed_metadata d))) w in
      (w', trigger_latency r.duration ∷ error_rate (not (r.status == 201)) ∷ [], true)

  abbrev pub mixed_runs : Iteration → ℕ → W → W × List Sample × Bool
  mixed_runs d pipeline_id w =
      let (w', r) = serve (get_runs pipeline_id) w in
      let listing = list_runs_latency r.duration in
      elim (first_run r) [
        | none ↦ (w', listing ∷ [], false)
        | some none ↦ (w', listing ∷ [], true)
        | some (some run_id) ↦
            let (v, q) = serve (get_jobs run_id) w' in
            if ltb d.again 500000
            then (v, listing ∷ run_with_jobs_latency q.duration ∷ [], true)
            else (w', listing ∷ [], true)
      ]

  abbrev pub mixed_dashboard : Request → W → W × List Sample × Bool
  mixed_dashboard request w =
      let (w', r) = serve request w in
      (w', dashboard_latency r.duration ∷ error_rate (not (r.status == 200)) ∷ [], true)

  -- A branch that throws has no `sleep` behind it.
  abbrev pub paused : ℕ → W × List Sample × Bool → W × List Sample
  paused time (w, samples, done) = (if done then sleep time w else w, samples)

  unfoldable pub mixed_load : Iteration → ℕ → W → W × List Sample
  mixed_load d pipeline_id w = paused (1000000 + 3 * d.pause) (
      if ltb d.choice 350000
      then mixed_trigger d pipeline_id w
      else if ltb d.choice 600000
      then mixed_runs d pipeline_id w
      else if ltb d.choice 850000
      then mixed_dashboard get_pipeline_stats w
      else mixed_dashboard get_deployment_locks w)

-- The iterations of a script one after the other, and their samples.
unfoldable pub iterate {ℓ} :
    {W : Type ℓ} → (Iteration → W → W × List Sample) → List Iteration → W → W × List Sample
iterate script [] w = (w, [])
iterate script (d ∷ ds) w =
    let (w', samples) = script d w in let (v, more) = iterate script ds w' in (v, samples ++ more)
