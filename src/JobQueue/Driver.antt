-- ===== src/JobQueue/Driver.antt =====
-- What `claimNextJob` makes of the two shapes in which a driver may answer an UPDATE.
use postgres_pipeline_orches.Common.{
  ℕ, ◌≡◌, refl, ◌⊎◌, inl, inr, Bool, none, some, List, [], arith, Has, Has-update, subst,
  if◌then◌else◌, ◌==◌, any, not, ◌&&◌, false,
}
use postgres_pipeline_orches.Common.Text.{Text}
use postgres_pipeline_orches.Database.{Job, Db, missing, row, First, AnswersRows, AnswersCount}
use postgres_pipeline_orches.JobQueue.{
  Claimed, read_claim, claim_next_job, claim_query, set_claimed, claimable, next_job,
}
use postgres_pipeline_orches.JobQueue.Rows.{UniqueIds, has_id}
use postgres_pipeline_orches.JobQueue.Claiming.{IsNext, claim_query_lem, not_claimed}

abbrev pub handed : Job → Claimed
handed k = record {
  id = some k.id;
  command = k.command;
  stage = k.stage;
  pipeline_run_id = some k.pipeline_run_id;
}

module _ (first : List Job → First Job) (locked : ℕ → Bool) (worker : Text) (now : ℕ)
    (db : Db) where
  pub claim_next_job_lem : claim_next_job first locked worker now db ≡ (
    (claim_query locked worker now db).0,
    read_claim (first (claim_query locked worker now db).1),
  )
  unfolding claim_next_job
  claim_next_job_lem = refl

  pub read_row : (j : Job) → read_claim (row j) ≡ some (handed j)
  unfolding read_claim
  read_row j = refl

  read_missing : read_claim missing ≡ none
  unfolding read_claim
  read_missing = refl

  pub claim_next_job-none :
      AnswersRows first
      → next_job locked db.jobs ≡ none
      → claim_next_job first locked worker now db ≡ (db, none)
  claim_next_job-none d e =
      let q = not_claimed locked worker now db e in
      rw (claim_next_job_lem, q, d.at_none, read_missing) refl

  -- Nothing is claimable and free, or the next job is taken.
  pub claim_next_job_idle_or_taken :
      AnswersRows first
      → UniqueIds db.jobs
      → ((any db.jobs (λ a. claimable db.jobs a && not (locked a.id)) ≡ false)
          × (claim_next_job first locked worker now db ≡ (db, none)))
        ⊎ ((k : Job) × IsNext locked db.jobs k
            × ((claim_next_job first locked worker now db).1 ≡ some (handed k))
            × Has (set_claimed worker now k) (claim_next_job first locked worker now db).0.jobs)
  claim_next_job_idle_or_taken d u = elim (claim_query_lem locked worker now db u) [
    | inl (idle, e) ↦ inl (idle, rw (claim_next_job_lem, e, d.at_none, read_missing) refl)
    | inr (k, n, e) ↦ inr (
      k,
      n,
      rw (claim_next_job_lem, e, d.at_some, read_row) refl,
      rw (claim_next_job_lem, e)
          (taken k _ (Has-update (has_id k.id) (set_claimed worker now) db.jobs k n.stored)),
    )
  ]
    where
      taken :
          (k : Job) (js : List Job)
          → Has (if k.id == k.id then set_claimed worker now k else k) js
          → Has (set_claimed worker now k) js
      taken k js h = subst (λ x. Has x js) (ground arith) h

  -- From a driver that answers with the rows, and with distinct ids: the worker gets the next
  -- job, which is now stored as claimed, or nothing, and then the database is as it was.
  pub claim_next_job_by_rows :
      AnswersRows first
      → UniqueIds db.jobs
      → (claim_next_job first locked worker now db ≡ (db, none))
        ⊎ ((k : Job) × IsNext locked db.jobs k
            × ((claim_next_job first locked worker now db).1 ≡ some (handed k))
            × Has (set_claimed worker now k) (claim_next_job first locked worker now db).0.jobs)
  claim_next_job_by_rows d u = elim (claim_next_job_idle_or_taken d u) [
    | inl (idle, e) ↦ inl e
    | inr t ↦ inr t
  ]

  -- From one that answers with the rows and their number, the worker always gets a job with no id and
  -- an empty command, also where no job was waiting.
  pub claim_next_job_by_count :
      AnswersCount first
      → (claim_next_job first locked worker now db).1
        ≡ some (record { id = none; command = []; stage = []; pipeline_run_id = none })
  unfolding claim_next_job read_claim
  claim_next_job_by_count d = rw d
