-- ===== src/JobQueue/RunHistory.antt =====
-- Every method of the job queue keeps the status of every run in step with its jobs.
use postgres_pipeline_orches.Common.{
  ℕ, ◌≡◌, refl, sym, ◌∙◌, inl, inr, Bool, false, List, [], ◌∷◌, ◌++◌, map, arith, ◌==◌, All,
  All-imp, any, select, update, Option-cases, Bool-cases,
}
use postgres_pipeline_orches.Common.Text.{Text}
use postgres_pipeline_orches.Database.{
  is_running, is_failed, Job, PipelineRun, Db, some_job, Status,
}
use postgres_pipeline_orches.JobQueue.{
  QueueCall, insert, claim, heartbeat, complete, fail, reclaim, call, calls, next_job, new_row,
  stuck, set_completed, set_heartbeat, set_failed, set_reclaimed, update_jobs, claim_query,
  set_claimed, insert_new_job, mark_completed, mark_failed, update_heartbeat, reclaim_stuck_jobs,
}
use postgres_pipeline_orches.JobQueue.RunStatus.{
  IsSynced, Due, unfinished, whatever, sync_runs-IsSynced,
}

-- A job of another run has no say.
some_job-update :
    (q : Status → Bool) (i : ℕ) (p : Job → Bool) (f : Job → Job) (jobs : List Job)
    → ((j : Job) → (f j).pipeline_run_id ≡ j.pipeline_run_id)
    → any (map f (select p jobs)) (λ j. j.pipeline_run_id == i) ≡ false
    → some_job i q (update p f jobs) ≡ some_job i q jobs
some_job-update q i p f [] same h = refl
some_job-update q i p f (j ∷ jobs) same h =
    ground (arith, same j, some_job-update q i p f jobs same)

update-Due :
    (p : Job → Bool) (f : Job → Job) (jobs : List Job) (r : PipelineRun)
    → ((j : Job) → (f j).pipeline_run_id ≡ j.pipeline_run_id)
    → IsSynced jobs r
    → Due (update p f jobs) (map f (select p jobs)) r
update-Due p f jobs r same s =
    elim (Bool-cases (any (map f (select p jobs)) (λ j. j.pipeline_run_id == r.id))) [
      | inl t ↦ inr t
      | inr t ↦ inl (kept t)
    ]
  where
    kept :
        any (map f (select p jobs)) (λ j. j.pipeline_run_id == r.id) ≡ false
        → IsSynced (update p f jobs) r
    kept t =
        let same_as = λ (q : Status → Bool). some_job-update q r.id p f jobs same t in
        record {
          while_running = λ h. s.while_running (sym (same_as is_running) ∙ h);
          when_ended = λ h u.
              rw (same_as is_failed)
                (s.when_ended (sym (same_as whatever) ∙ h) (sym (same_as unfinished) ∙ u));
        }

abbrev pub AllSynced : Db → Type 0
AllSynced db = All (IsSynced db.jobs) db.runs

-- Any UPDATE of `jobs` that sets `status` and leaves `pipeline_run_id` alone.
update_jobs-AllSynced :
    (now : ℕ) (p : Job → Bool) (f : Job → Job) (db : Db)
    → ((j : Job) → (f j).pipeline_run_id ≡ j.pipeline_run_id)
    → AllSynced db
    → AllSynced (update_jobs now p f db).0
unfolding update_jobs
update_jobs-AllSynced now p f db same h = sync_runs-IsSynced now _ _ db.runs (
    All-imp (IsSynced db.jobs) (Due (update p f db.jobs) (map f (select p db.jobs))) db.runs
      (λ r. update-Due p f db.jobs r same) h)

some_job-insert :
    (q : Status → Bool) (i : ℕ) (j : Job) (jobs : List Job)
    → (j.pipeline_run_id == i) ≡ false
    → some_job i q (jobs ++ j ∷ []) ≡ some_job i q jobs
some_job-insert q i j [] h = ground arith
some_job-insert q i j (k ∷ jobs) h = ground (arith, some_job-insert q i j jobs h)

insert-Due :
    (j : Job) (jobs : List Job) (r : PipelineRun)
    → IsSynced jobs r
    → Due (jobs ++ j ∷ []) (j ∷ []) r
insert-Due j jobs r s = elim (Bool-cases (j.pipeline_run_id == r.id)) [
  | inl t ↦ inr (ground arith)
  | inr t ↦ inl (kept t)
]
  where
    kept : (j.pipeline_run_id == r.id) ≡ false → IsSynced (jobs ++ j ∷ []) r
    kept t =
        let same_as = λ (q : Status → Bool). some_job-insert q r.id j jobs t in
        record {
          while_running = λ h. s.while_running (sym (same_as is_running) ∙ h);
          when_ended = λ h u.
              rw (same_as is_failed)
                (s.when_ended (sym (same_as whatever) ∙ h) (sym (same_as unfinished) ∙ u));
        }

heartbeat-same :
    (q : Status → Bool) (i k now : ℕ) (jobs : List Job)
    → some_job i q (update (λ j. j.id == k) (set_heartbeat now) jobs) ≡ some_job i q jobs
heartbeat-same q i k now [] = refl
heartbeat-same q i k now (j ∷ jobs) = ground (arith, heartbeat-same q i k now jobs)

heartbeat-AllSynced : (k now : ℕ) (db : Db) → AllSynced db → AllSynced (update_heartbeat k now db)
unfolding update_heartbeat
heartbeat-AllSynced k now db h =
    All-imp (IsSynced db.jobs) (IsSynced (update_heartbeat k now db).jobs) db.runs
      (λ r s. record {
        while_running =
            λ e. s.while_running (sym (heartbeat-same is_running r.id k now db.jobs) ∙ e);
        when_ended = λ e u. rw (heartbeat-same is_failed r.id k now db.jobs) (
            s.when_ended (sym (heartbeat-same whatever r.id k now db.jobs) ∙ e)
              (sym (heartbeat-same unfinished r.id k now db.jobs) ∙ u));
      })
      h

claim_query-AllSynced :
    (locked : ℕ → Bool) (worker : Text) (now : ℕ) (db : Db)
    → AllSynced db
    → AllSynced (claim_query locked worker now db).0
unfolding claim_query
claim_query-AllSynced locked worker now db h = elim (Option-cases (next_job locked db.jobs)) [
  | inl e ↦ rw (e, claim_query) h
  | inr (k, e) ↦
      rw (e, claim_query)
        (update_jobs-AllSynced now (λ j. j.id == k.id) (set_claimed worker now) db (λ j. refl) h)
]

-- Every method of the queue keeps every run in step with its jobs.
pub call-AllSynced : (c : QueueCall) (db : Db) → AllSynced db → AllSynced (call c db)
unfolding call insert_new_job mark_completed mark_failed reclaim_stuck_jobs
call-AllSynced (insert id now n) db h = sync_runs-IsSynced now _ (new_row id now n ∷ []) db.runs (
    All-imp (IsSynced db.jobs) (Due (db.jobs ++ new_row id now n ∷ []) (new_row id now n ∷ []))
      db.runs (insert-Due (new_row id now n) db.jobs) h)
call-AllSynced (claim locked worker now) db h = claim_query-AllSynced locked worker now db h
call-AllSynced (heartbeat k now) db h = heartbeat-AllSynced k now db h
call-AllSynced (complete k code now) db h =
    update_jobs-AllSynced now (λ j. j.id == k) (set_completed code now) db (λ j. refl) h
call-AllSynced (fail k code now) db h =
    update_jobs-AllSynced now (λ j. j.id == k) (set_failed code) db (λ j. refl) h
call-AllSynced (reclaim timeout now) db h =
    update_jobs-AllSynced now (stuck timeout now) set_reclaimed db (λ j. refl) h

-- Where every run is in step with its jobs, it is so after any calls of the queue in any order.
pub calls-AllSynced : (cs : List QueueCall) (db : Db) → AllSynced db → AllSynced (calls cs db)
unfolding calls
calls-AllSynced [] db h = h
calls-AllSynced (c ∷ cs) db h = calls-AllSynced cs (call c db) (call-AllSynced c db h)
