-- ===== src/JobQueue/Kept.antt =====
-- No call of the queue takes a run or a job away.
use postgres_pipeline_orches.Common.{
  ℕ, ◌≡◌, refl, ap, ◌∙◌, inl, inr, Bool, true, List, [], ◌∷◌, arith, ◌==◌, any, any-update,
  any-append, Option-cases,
}
use postgres_pipeline_orches.Common.Text.{Text}
use postgres_pipeline_orches.Database.{Job, PipelineRun, Db, sync_runs}
use postgres_pipeline_orches.Database.Synced.{sync_runs-keeps}
use postgres_pipeline_orches.JobQueue.{
  QueueCall, insert, claim, heartbeat, complete, fail, reclaim, call, calls, next_job, new_row,
  stuck, set_completed, set_failed, set_heartbeat, set_reclaimed, update_jobs, claim_query,
  set_claimed, insert_new_job, mark_completed, mark_failed, update_heartbeat, reclaim_stuck_jobs,
}

abbrev pub has_run : ℕ → List PipelineRun → Bool
has_run i runs = any runs (λ r. r.id == i)

abbrev pub has_job : ℕ → List Job → Bool
has_job i jobs = any jobs (λ j. j.pipeline_run_id == i)

pub sync_runs-has_run :
    (i now : ℕ) (jobs rows : List Job) (runs : List PipelineRun)
    → has_run i (sync_runs now jobs rows runs) ≡ has_run i runs
sync_runs-has_run i now jobs rows runs =
    sync_runs-keeps (λ rs. has_run i rs ≡ has_run i runs)
      (λ p f rs k e. any-update p f rs (λ r. r.id == i) (λ r. ap (λ x. x == i) (k r).0) ∙ e) now
      jobs rows runs refl

-- The tables still have what they had.
pub record Keeps (i : ℕ) (before after : Db) : Type 0 where
  pub runs : has_run i before.runs ≡ true → has_run i after.runs ≡ true
  pub jobs : has_job i before.jobs ≡ true → has_job i after.jobs ≡ true

update-Keeps :
    (i now : ℕ) (p : Job → Bool) (f : Job → Job) (db : Db)
    → ((j : Job) → (f j).pipeline_run_id ≡ j.pipeline_run_id)
    → Keeps i db (update_jobs now p f db).0
unfolding update_jobs
update-Keeps i now p f db same = record {
  runs = λ h. sync_runs-has_run i now _ _ db.runs ∙ h;
  jobs = λ h.
      any-update p f db.jobs (λ j. j.pipeline_run_id == i) (λ j. ap (λ x. x == i) (same j)) ∙ h;
}

claim-Keeps :
    (i : ℕ) (locked : ℕ → Bool) (worker : Text) (now : ℕ) (db : Db)
    → Keeps i db (claim_query locked worker now db).0
unfolding claim_query
claim-Keeps i locked worker now db = elim (Option-cases (next_job locked db.jobs)) [
  | inl e ↦ rw (e, claim_query) (record { runs = λ h. h; jobs = λ h. h })
  | inr (k, e) ↦
      rw (e, claim_query)
        (update-Keeps i now (λ j. j.id == k.id) (set_claimed worker now) db (λ j. refl))
]

pub call-Keeps : (i : ℕ) (c : QueueCall) (db : Db) → Keeps i db (call c db)
unfolding call insert_new_job mark_completed mark_failed reclaim_stuck_jobs update_heartbeat
call-Keeps i (insert id now n) db = record {
  runs = λ h. sync_runs-has_run i now _ (new_row id now n ∷ []) db.runs ∙ h;
  jobs = λ h.
      let q = any-append db.jobs (new_row id now n ∷ []) (λ j. j.pipeline_run_id == i) in
      ground (arith, q, h);
}
call-Keeps i (claim locked worker now) db = claim-Keeps i locked worker now db
call-Keeps i (heartbeat k now) db = record {
  runs = λ h. h;
  jobs = λ h.
      any-update (λ j. j.id == k) (set_heartbeat now) db.jobs (λ j. j.pipeline_run_id == i)
        (λ j. refl)
      ∙ h;
}
call-Keeps i (complete k code now) db =
    update-Keeps i now (λ j. j.id == k) (set_completed code now) db (λ j. refl)
call-Keeps i (fail k code now) db =
    update-Keeps i now (λ j. j.id == k) (set_failed code) db (λ j. refl)
call-Keeps i (reclaim timeout now) db =
    update-Keeps i now (stuck timeout now) set_reclaimed db (λ j. refl)

pub calls-Keeps : (i : ℕ) (cs : List QueueCall) (db : Db) → Keeps i db (calls cs db)
unfolding calls
calls-Keeps i [] db = record { runs = λ h. h; jobs = λ h. h }
calls-Keeps i (c ∷ cs) db =
    let a = call-Keeps i c db in
    let b = calls-Keeps i cs (call c db) in
    record { runs = λ h. b.runs (a.runs h); jobs = λ h. b.jobs (a.jobs h) }
