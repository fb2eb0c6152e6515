-- ===== src/JobQueue/Anomalies.antt =====
-- Where the queue leaves its contract: a job that no call brings back, a late report that revives a
-- finished job, and a stage that overtakes an earlier one.
use postgres_pipeline_orches.Common.{
  ℕ, ◌+◌, ◌≤◌, ◌<◌, ◌≡◌, refl, subst, inl, inr, true, false, some, List, [], ◌∷◌, ◌++◌, arith, Has,
  any-true, update, Has-update,
}
use postgres_pipeline_orches.Common.Text.{Text}
use postgres_pipeline_orches.Database.{
  pending, running, success, Job, PipelineRun, Db, sync_run, sync_runs,
}
use postgres_pipeline_orches.JobQueue.{
  insert, claim, call, calls, next_job, new_row, NewJob, blocks, claimable, earlier, least,
  set_failed, set_reclaimed, stuck, update_jobs, claim_query, set_claimed, insert_new_job,
  mark_failed, reclaim_stuck_jobs,
}
use postgres_pipeline_orches.JobQueue.Gate.{IsGated}

-- A running job with no retries left is out of reach of every reclaim, however old its heartbeat is;
-- and then no later job of its run can be claimed.
pub exhausted_job_stays :
    (timeout_seconds now : ℕ) (db : Db) (j k : Job)
    → Has j db.jobs
    → j.status ≡ running
    → j.max_retries ≤ j.retry_count
    → k.pipeline_run_id ≡ j.pipeline_run_id
    → earlier j k ≡ true
    → let jobs = (reclaim_stuck_jobs timeout_seconds now db).jobs in
      Has j jobs × (claimable jobs k ≡ false)
unfolding reclaim_stuck_jobs update_jobs claimable
exhausted_job_stays timeout_seconds now db j k m r full same e =
    (stays, ground (arith, any-true _ (λ p. blocks p k) j stays))
  where
    stays : Has j (update (stuck timeout_seconds now) set_reclaimed db.jobs)
    stays =
        subst (λ x. Has x (update (stuck timeout_seconds now) set_reclaimed db.jobs)) (ground arith)
          (Has-update (stuck timeout_seconds now) set_reclaimed db.jobs j m)

-- A failure reported for a job that has ended as a success puts it back to pending, with a retry
-- left; and a run whose only job it is stays a success.
pub late_failure_revives :
    (j : Job) (r : PipelineRun) (exit_code now : ℕ)
    → j.pipeline_run_id ≡ r.id
    → j.status ≡ success
    → r.status ≡ success
    → j.retry_count + 1 < j.max_retries
    → let db = mark_failed j.id exit_code now (record { jobs = j ∷ []; runs = r ∷ [] }) in
      (db.jobs ≡ set_failed exit_code j ∷ [])
      × ((set_failed exit_code j).status ≡ pending)
      × (db.runs ≡ r ∷ [])
unfolding mark_failed update_jobs sync_runs sync_run
late_failure_revives j r exit_code now same js rs more = (ground arith, ground arith, ground arith)

claims_only : (j : Job) → j.status ≡ pending → next_job (λ i. false) (j ∷ []) ≡ some j
unfolding next_job claimable least
claims_only j w = ground arith

-- The table after a claim of its only row.
claimed_only :
    (j : Job) (worker : Text) (now : ℕ) (runs : List PipelineRun)
    → j.status ≡ pending
    → (claim_query (λ i. false) worker now (record { jobs = j ∷ []; runs = runs })).0.jobs
      ≡ set_claimed worker now j ∷ []
unfolding claim_query update_jobs
claimed_only j worker now runs w = rw (claims_only j w, claim_query) (ground arith)

-- If a later job of a run is inserted into an empty queue and claimed before an earlier one of
-- its run is inserted, then a job runs before an unfinished earlier one.
pub overtaken :
    (id id' t t' t'' : ℕ) (late early : NewJob) (worker : Text) (runs : List PipelineRun)
    → early.pipeline_run_id ≡ late.pipeline_run_id
    → earlier (new_row id' t'' early) (new_row id t late) ≡ true
    → ¬ IsGated
        (calls
          (insert id t late ∷ claim (λ i. false) worker t' ∷ insert id' t'' early ∷ [])
          (record { jobs = []; runs = runs })).jobs
unfolding calls call insert_new_job
overtaken id id' t t' t'' late early worker runs same e g =
    let gated =
      subst (λ js. IsGated (js ++ new_row id' t'' early ∷ []))
        (claimed_only (new_row id t late) worker t' _ refl) g in
    let ended : false ≡ true =
      gated (set_claimed worker t' (new_row id t late)) (new_row id' t'' early) (inl refl)
        (inr (inl refl)) refl same e in
    cc
