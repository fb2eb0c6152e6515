-- ===== src/Runs/Stored.antt =====
-- The jobs and the run that a trigger stores, as the queue and the workers find them.
use postgres_pipeline_orches.Common.{
  ℕ, suc, ◌≡◌, ◌≢◌, refl, sym, ap, subst, ◌∙◌, true, List, [], ◌∷◌, arith, ◌==◌, All, any-append,
}
use postgres_pipeline_orches.Database.{PipelineRun, Db}
use postgres_pipeline_orches.JobQueue.{NewJob, QueueCall, insert, call, calls}
use postgres_pipeline_orches.JobQueue.Kept.{has_run, has_job, calls-Keeps}
use postgres_pipeline_orches.Runs.Trigger.{create_pipeline_run, insert_all}
use postgres_pipeline_orches.Runs.Inserted.{rows_of, insert_all-jobs, IsOfRun}

-- The INSERTs of a trigger as calls of the queue.
unfoldable pub inserts : (ℕ → ℕ) → ℕ → ℕ → List NewJob → List QueueCall
inserts ids now k [] = []
inserts ids now k (n ∷ ns) = insert (ids k) now n ∷ inserts ids now (suc k) ns

pub insert_all-calls :
    (ids : ℕ → ℕ) (now k : ℕ) (ns : List NewJob) (db : Db)
    → insert_all ids now k ns db ≡ calls (inserts ids now k ns) db
unfolding insert_all calls call inserts
insert_all-calls ids now k [] db = refl
insert_all-calls ids now k (n ∷ ns) db =
    insert_all-calls ids now (suc k) ns (call (insert (ids k) now n) db)

rows_of_run :
    (id : ℕ) (ids : ℕ → ℕ) (now k : ℕ) (ns : List NewJob)
    → All (IsOfRun id) ns
    → ns ≢ []
    → has_job id (rows_of ids now k ns) ≡ true
unfolding rows_of
rows_of_run id ids now k [] h e = absurd (e refl)
rows_of_run id ids now k (n ∷ ns) h e = ground (arith, h.0)

-- The new run is stored, and has a job.
pub inserted-has_run :
    (id : ℕ) (ids : ℕ → ℕ) (now : ℕ) (ns : List NewJob) (run : PipelineRun) (db : Db)
    → run.id ≡ id
    → has_run id (insert_all ids now 0 ns (create_pipeline_run run db)).runs ≡ true
inserted-has_run id ids now ns run db e =
    let made = create_pipeline_run run db in
    subst (λ (x : Db). has_run id x.runs ≡ true) (sym (insert_all-calls ids now 0 ns made))
      ((calls-Keeps id (inserts ids now 0 ns) made).runs
        (any-append db.runs (run ∷ []) (λ r. r.id == id) ∙ ground (arith, e)))

pub inserted-has_job :
    (id : ℕ) (ids : ℕ → ℕ) (now : ℕ) (ns : List NewJob) (db : Db)
    → All (IsOfRun id) ns
    → ns ≢ []
    → has_job id (insert_all ids now 0 ns db).jobs ≡ true
inserted-has_job id ids now ns db h e =
    let t = rows_of_run id ids now 0 ns h e in
    ap (has_job id) (insert_all-jobs ids now 0 ns db)
    ∙ any-append db.jobs (rows_of ids now 0 ns) (λ j. j.pipeline_run_id == id)
    ∙ ground (arith, t)
