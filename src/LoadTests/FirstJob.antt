-- ===== src/LoadTests/FirstJob.antt =====
-- The polls of log-streaming.js for the first job of its run.
use postgres_pipeline_orches.Common.{
  ℕ, suc, zero, ◌+◌, ◌-◌, ◌≤◌, ◌≡◌, ◌≢◌, refl, sym, ap, subst, ◌∙◌, inl, inr, Bool, true, false,
  none, some, List, [], ◌∷◌, map, arith, ◌==◌, find?, select, length, any, Bool-cases, Option-cases,
}
use postgres_pipeline_orches.Common.Text.{codes}
use postgres_pipeline_orches.Database.{Job, PipelineRun, Db}
use postgres_pipeline_orches.JobQueue.Kept.{has_run, has_job}
use postgres_pipeline_orches.Runs.{
  Pipeline, Store, Triggered, new_run, create_pipeline_run, config_jobs,
}
use postgres_pipeline_orches.Runs.Inserted.{jobs-IsOfRun}
use postgres_pipeline_orches.Runs.Started.{trigger_run_found}
use postgres_pipeline_orches.Runs.Stored.{inserted-has_run, inserted-has_job}
use postgres_pipeline_orches.Runs.Queries.{found, find_one, find_one_with_jobs, get_run_with_jobs}
use postgres_pipeline_orches.LoadTests.Client.{
  Request, post_run, get_jobs, get_logs, Response, Sample, trigger_latency, time_to_first_job,
  first_id,
}
use postgres_pipeline_orches.LoadTests.Scripts.{
  run_id_of, first_job, has_logs, poll_jobs, poll_logs, after_jobs, log_streaming,
}
use postgres_pipeline_orches.LoadTests.Server.{
  Api, job_entry, jobs_response, all_made, trigger_response, serve, pass,
}

find-any {ℓ} :
    {A : Type ℓ} (p : A → Bool) (xs : List A)
    → any xs p ≡ true
    → (x : A) × (find? p xs ≡ some x) × (p x ≡ true)
find-any p [] h = (let f : false ≡ true = h in cc)
find-any p (x ∷ xs) h = elim (Bool-cases (p x)) [
  | inl t ↦ (x, rw t refl, t)
  | inr t ↦ let (y, e, q) = find-any p xs (rw t at h) in (y, rw t e, q)
]

first_selected :
    (i : ℕ) (jobs : List Job)
    → has_job i jobs ≡ true
    → (k : ℕ) × (first_id (map job_entry (select (λ j. j.pipeline_run_id == i) jobs)) ≡ some k)
first_selected i [] h = (let f : false ≡ true = h in cc)
first_selected i (j ∷ jobs) h = elim (Bool-cases (j.pipeline_run_id == i)) [
  | inl t ↦ (j.id, rw t refl)
  | inr t ↦ let (k, e) = first_selected i jobs (rw t at h) in (k, rw t e)
]

answered :
    (i : ℕ) (run : PipelineRun) (db : Db)
    → find? (λ q. q.id == i) db.runs ≡ some run
    → get_run_with_jobs i db
      ≡ found (record { run = run; jobs = select (λ j. j.pipeline_run_id == run.id) db.jobs })
unfolding get_run_with_jobs find_one_with_jobs find_one
answered i run db e = rw (e, get_run_with_jobs, find_one_with_jobs, find_one) refl

-- A run with a job is answered with a first job.
job_answered :
    (i ms : ℕ) (db : Db)
    → has_run i db.runs ≡ true
    → has_job i db.jobs ≡ true
    → (k : ℕ) × (first_job (jobs_response ms (get_run_with_jobs i db)) ≡ some (some k))
job_answered i ms db r j =
    let (run, e, t) = find-any (λ q. q.id == i) db.runs r in
    let same : run.id ≡ i = ground (arith, t) in
    let (k, f) =
      first_selected run.id db.jobs (subst (λ n. has_job n db.jobs ≡ true) (sym same) j) in
    (k, ap (λ x. first_job (jobs_response ms x)) (answered i run db e) ∙ ap some f)

module _ {ℓ} {W : Type ℓ} (server : Request → W → W × Response) (sleep : ℕ → W → W)
    (clock : W → ℕ) where
  poll_found :
      (i run_id since k : ℕ) (w : W)
      → let (w', r) = server (get_jobs run_id) (sleep 5000000 w) in
        first_job r ≡ some (some k)
        → poll_jobs server sleep clock (suc i) run_id since w
          ≡ (w', time_to_first_job (clock w' - since) ∷ [], some k)
  unfolding poll_jobs
  poll_found i run_id since k w e = rw (e, poll_jobs) refl

  poll_logs-length :
      (i run_id job_id since : ℕ) (w : W)
      → length (poll_logs server sleep clock i run_id job_id since w).1 ≤ 1
  unfolding poll_logs
  poll_logs-length zero run_id job_id since w = omega arith
  poll_logs-length (suc i) run_id job_id since w =
      let (w', r) = server (get_logs run_id job_id) (sleep 3000000 w) in
      elim (Option-cases (has_logs r)) [
        | inl e ↦ rw (e, poll_logs) (omega arith)
        | inr (true, e) ↦ rw (e, poll_logs) (omega arith)
        | inr (false, e) ↦ rw (e, poll_logs) (poll_logs-length i run_id job_id since w')
      ]

  -- Where the response to the trigger has the run, and the first poll its job.
  job_found :
      (pipeline_id run_id k : ℕ) (w : W)
      → let (v, r) = server (post_run pipeline_id none) w in
        let (v', q) = server (get_jobs run_id) (sleep 5000000 v) in
        run_id_of r ≡ some run_id
        → first_job q ≡ some (some k)
        → (rest : List Sample) × ((log_streaming server sleep clock pipeline_id w).1
            ≡ trigger_latency r.duration ∷ time_to_first_job (clock v' - clock v) ∷ rest)
          × (length rest ≤ 1)
  unfolding log_streaming
  job_found pipeline_id run_id k w e f =
      let (v, r) = server (post_run pipeline_id none) w in
      let v' = (server (get_jobs run_id) (sleep 5000000 v)).0 in
      let seen : poll_jobs server sleep clock 60 run_id (clock v) v
          ≡ (v', time_to_first_job (clock v' - clock v) ∷ [], some k) =
        poll_found 59 run_id (clock v) k v f in
      (
        (poll_logs server sleep clock 30 run_id k (clock v') v').1,
        rw (e, log_streaming)
            (ap (λ x. (after_jobs server sleep clock run_id (trigger_latency r.duration ∷ []) x).1)
              seen),
        poll_logs-length 30 run_id k (clock v') v',
      )

-- A response that has the run, and tables with the run and a job of it.
abbrev HasRun : ℕ → Api × Response → Type 0
HasRun id (a, r) =
    (run_id_of r ≡ some id)
    × (has_run id a.store.db.runs ≡ true)
    × (has_job id a.store.db.jobs ≡ true)

module _ (uuid : ℕ → ℕ) (timing : Request → Api → ℕ) (clock : Api → ℕ) where
  posted :
      (pipeline_id : ℕ) (p : Pipeline) (a : Api)
      → find? (λ q. q.id == pipeline_id) a.store.pipelines ≡ some p
      → find? (λ r. r.id == uuid a.made) a.store.db.runs ≡ none
      → config_jobs (uuid a.made) p.config ≢ []
      → HasRun (uuid a.made) (serve uuid timing (post_run pipeline_id none) a)
  unfolding serve
  posted pipeline_id p a e f n =
      let ids : ℕ → ℕ = λ k. uuid (suc (a.made + k)) in
      let id = uuid a.made in
      let run = new_run id a.time pipeline_id (codes "manual") none in
      let jobs = config_jobs id p.config in
      let q =
        trigger_run_found id (all_made ids) a.time pipeline_id (codes "manual") none a.store p e
          f in
      (
        ap
            (λ (x : Store × Triggered).
              run_id_of (trigger_response (timing (post_run pipeline_id none) a) x.1))
            q,
        subst (λ (x : Store × Triggered). has_run id x.0.db.runs ≡ true) (sym q)
            (inserted-has_run id ids a.time jobs run a.store.db refl),
        subst (λ (x : Store × Triggered). has_job id x.0.db.jobs ≡ true) (sym q)
            (inserted-has_job id ids a.time jobs (create_pipeline_run run a.store.db)
              (jobs-IsOfRun id p.config) n),
      )

  polled :
      (id : ℕ) (a : Api)
      → has_run id a.store.db.runs ≡ true
      → has_job id a.store.db.jobs ≡ true
      → (k : ℕ) × (first_job (serve uuid timing (get_jobs id) (pass 5000000 a)).1 ≡ some (some k))
  unfolding serve
  polled id a r j = job_answered id (timing (get_jobs id) (pass 5000000 a)) a.store.db r j

  -- Against the application as the server, on a stored pipeline whose config has a step, and with a new
  -- uuid for the run: an iteration of log-streaming has the latency of its trigger, then the time to
  -- the first job, which its first poll finds, and then at most one more sample.
  pub log_streaming_lem :
      (pipeline_id : ℕ) (p : Pipeline) (a : Api)
      → find? (λ q. q.id == pipeline_id) a.store.pipelines ≡ some p
      → find? (λ r. r.id == uuid a.made) a.store.db.runs ≡ none
      → config_jobs (uuid a.made) p.config ≢ []
      → let server = serve uuid timing in
        let (v, r) = server (post_run pipeline_id none) a in
        let v' = (server (get_jobs (uuid a.made)) (pass 5000000 v)).0 in
        (rest : List Sample) × ((log_streaming server pass clock pipeline_id a).1
          ≡ trigger_latency r.duration ∷ time_to_first_job (clock v' - clock v) ∷ rest)
        × (length rest ≤ 1)
  log_streaming_lem pipeline_id p a e f n =
      let (answer, run, job) = posted pipeline_id p a e f n in
      let v = (serve uuid timing (post_run pipeline_id none) a).0 in
      let (k, seen) = polled (uuid a.made) v run job in
      job_found (serve uuid timing) pass clock pipeline_id (uuid a.made) k a answer seen
