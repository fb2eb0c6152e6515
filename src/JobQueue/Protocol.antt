-- ===== src/JobQueue/Protocol.antt =====
-- Histories of the queue in which its callers keep the protocol: the database makes fresh ids, no
-- job is put before one of its run that is running, and nobody reports the failure of a job that has
-- ended. Over them the primary key and the gate hold.
use postgres_pipeline_orches.Common.{
  ℕ, ◌≡◌, refl, ◌≢◌, inl, inr, Bool, false, List, [], ◌∷◌, ◌++◌, arith, ◌==◌, Has, Has-append,
  Option-cases,
}
use postgres_pipeline_orches.Common.Text.{Text}
use postgres_pipeline_orches.Common.Keys.{update-UniqueKeys, insert-UniqueKeys}
use postgres_pipeline_orches.Database.{running, is_terminal, Job, Db}
use postgres_pipeline_orches.JobQueue.{
  QueueCall, insert, claim, heartbeat, complete, fail, reclaim, call, calls, next_job, new_row,
  stuck, set_completed, set_failed, set_heartbeat, set_reclaimed, update_jobs, claim_query,
  insert_new_job, NewJob, mark_completed, mark_failed, update_heartbeat, reclaim_stuck_jobs,
  earlier,
}
use postgres_pipeline_orches.JobQueue.Rows.{UniqueIds, id_of}
use postgres_pipeline_orches.JobQueue.Claiming.{next_job-IsNext}
use postgres_pipeline_orches.JobQueue.Gate.{IsGated, update-IsGated, claim-IsGated}

abbrev pub Allowed : List Job → QueueCall → Type 0
Allowed jobs (insert id now n) =
    (j : Job)
    → Has j jobs
    → (j.id ≢ id)
      × (j.status ≡ running
          → j.pipeline_run_id ≡ n.pipeline_run_id
          → earlier (new_row id now n) j ≡ false)
Allowed jobs (fail job_id exit_code now) =
    (j : Job) → Has j jobs → j.id ≡ job_id → is_terminal j.status ≡ false
Allowed jobs _ = Unit {0}

-- Each call is allowed when its turn comes.
abbrev pub AllowedAll : Db → List QueueCall → Type 0
AllowedAll db [] = Unit {0}
AllowedAll db (c ∷ cs) = Allowed db.jobs c × AllowedAll (call c db) cs

pub record IsSound (jobs : List Job) : Type 0 where
  pub unique : UniqueIds jobs
  pub gated : IsGated jobs

claim-IsSound :
    (locked : ℕ → Bool) (worker : Text) (now : ℕ) (db : Db)
    → IsSound db.jobs
    → IsSound (claim_query locked worker now db).0.jobs
unfolding claim_query update_jobs
claim-IsSound locked worker now db s = elim (Option-cases (next_job locked db.jobs)) [
  | inl e ↦ rw (e, claim_query) s
  | inr (k, e) ↦
      rw (e, claim_query)
        (record {
          unique = update-UniqueKeys id_of _ _ db.jobs (λ j. refl) s.unique;
          gated =
              claim-IsGated locked worker now db.jobs k s.unique
                (next_job-IsNext locked db.jobs k e) s.gated;
        })
]

insert-IsGated :
    (jobs : List Job) (id now : ℕ) (n : NewJob)
    → Allowed jobs (insert id now n)
    → IsGated jobs
    → IsGated (jobs ++ new_row id now n ∷ [])
insert-IsGated jobs id now n ok g j prev hj hp r same e =
    elim (Has-append jobs (new_row id now n ∷ []) j hj) [
      | inl mj ↦ elim (Has-append jobs (new_row id now n ∷ []) prev hp) [
        | inl mp ↦ g j prev mj mp r same e
        | inr mp ↦ elim mp [ inl q ↦ ground (arith, ok j mj) | inr m ↦ absurd m ]
      ]
      | inr mj ↦ elim mj [ inl q ↦ ground arith | inr m ↦ absurd m ]
    ]

-- One allowed call keeps them.
pub call-IsSound :
    (c : QueueCall) (db : Db) → Allowed db.jobs c → IsSound db.jobs → IsSound (call c db).jobs
unfolding call insert_new_job mark_completed mark_failed reclaim_stuck_jobs update_heartbeat
    update_jobs
call-IsSound (insert id now n) db ok s = record {
  unique = insert-UniqueKeys id_of db.jobs (new_row id now n) (λ j m. (ok j m).0) s.unique;
  gated = insert-IsGated db.jobs id now n ok s.gated;
}
call-IsSound (claim locked worker now) db ok s = claim-IsSound locked worker now db s
call-IsSound (heartbeat k now) db ok s = record {
  unique = update-UniqueKeys id_of _ _ db.jobs (λ j. refl) s.unique;
  gated = update-IsGated (λ j. j.id == k) (set_heartbeat now) db.jobs (λ j m. ground arith) s.gated;
}
call-IsSound (complete k code now) db ok s = record {
  unique = update-UniqueKeys id_of _ _ db.jobs (λ j. refl) s.unique;
  gated =
      update-IsGated (λ j. j.id == k) (set_completed code now) db.jobs (λ j m. ground arith)
        s.gated;
}
call-IsSound (fail k code now) db ok s = record {
  unique = update-UniqueKeys id_of _ _ db.jobs (λ j. refl) s.unique;
  gated =
      update-IsGated (λ j. j.id == k) (set_failed code) db.jobs (λ j m. ground (arith, ok j m))
        s.gated;
}
call-IsSound (reclaim timeout now) db ok s = record {
  unique = update-UniqueKeys id_of _ _ db.jobs (λ j. refl) s.unique;
  gated = update-IsGated (stuck timeout now) set_reclaimed db.jobs (λ j m. ground arith) s.gated;
}

-- From a table with distinct ids, in which every earlier job of a running one of its run has
-- ended, any history of allowed calls leads to such a table.
pub calls-IsSound :
    (cs : List QueueCall) (db : Db)
    → AllowedAll db cs
    → IsSound db.jobs
    → IsSound (calls cs db).jobs
unfolding calls
calls-IsSound [] db ok s = s
calls-IsSound (c ∷ cs) db ok s = calls-IsSound cs (call c db) ok.1 (call-IsSound c db ok.0 s)
