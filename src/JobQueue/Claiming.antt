-- ===== src/JobQueue/Claiming.antt =====
-- What a claim takes (`claimNextJob`), for any rows that other transactions hold.
use postgres_pipeline_orches.Common.{
  ℕ, ◌≡◌, refl, sym, ◌∙◌, ◌⊎◌, inl, inr, Bool, true, false, not, ◌&&◌, none, some, List, [], ◌∷◌,
  arith, Has, any, select, update, select_sound, select_complete, select-eq-nil, any-false,
  Option-cases,
}
use postgres_pipeline_orches.Common.Text.{Text}
use postgres_pipeline_orches.Common.Keys.{select-has_key}
use postgres_pipeline_orches.Database.{pending, is_terminal, Job, Db, sync_run, sync_runs}
use postgres_pipeline_orches.JobQueue.{
  earlier, blocks, before, claimable, least, next_job, update_jobs, claim_query, set_claimed,
}
use postgres_pipeline_orches.JobQueue.Least.{least-Has, least_minimal, least-eq-none}
use postgres_pipeline_orches.JobQueue.Rows.{UniqueIds, id_of, has_id}

-- What makes a row the next one to claim.
pub record IsNext (locked : ℕ → Bool) (jobs : List Job) (k : Job) : Type 0 where
  pub stored : Has k jobs
  pub waiting : k.status ≡ pending
  pub free : locked k.id ≡ false
  pub gate :
      (prev : Job)
      → Has prev jobs
      → prev.pipeline_run_id ≡ k.pipeline_run_id
      → earlier prev k ≡ true
      → is_terminal prev.status ≡ true
  pub foremost :
      (a : Job) → Has a jobs → claimable jobs a ≡ true → locked a.id ≡ false → before a k ≡ false

module _ (locked : ℕ → Bool) (jobs : List Job) where
  pub candidate : Job → Bool
  candidate j = claimable jobs j && not (locked j.id)

  next-eq-least : next_job locked jobs ≡ least (select candidate jobs)
  unfolding next_job candidate
  next-eq-least = refl

  candidate_sound :
      (k : Job) → candidate k ≡ true → (claimable jobs k ≡ true) × (locked k.id ≡ false)
  unfolding candidate
  candidate_sound k h = ground arith

  candidate_complete :
      (k : Job) → claimable jobs k ≡ true → locked k.id ≡ false → candidate k ≡ true
  unfolding candidate
  candidate_complete k h l = ground arith

  claimable_waits : (k : Job) → claimable jobs k ≡ true → k.status ≡ pending
  unfolding claimable
  claimable_waits k h = ground arith

  unblocked : (k : Job) → claimable jobs k ≡ true → any jobs (λ p. blocks p k) ≡ false
  unfolding claimable
  unblocked k h = ground arith

  claimable_gate :
      (k prev : Job)
      → claimable jobs k ≡ true
      → Has prev jobs
      → prev.pipeline_run_id ≡ k.pipeline_run_id
      → earlier prev k ≡ true
      → is_terminal prev.status ≡ true
  claimable_gate k prev h m r e =
      ground (arith, any-false jobs (λ p. blocks p k) prev (unblocked k h) m)

  pub next_job-IsNext : (k : Job) → next_job locked jobs ≡ some k → IsNext locked jobs k
  next_job-IsNext k h =
      let e = sym next-eq-least ∙ h in
      let (m, c) = select_sound candidate jobs k (least-Has _ k e) in
      let (c', l) = candidate_sound k c in
      record {
        stored = m;
        waiting = claimable_waits k c';
        free = l;
        gate = λ prev. claimable_gate k prev c';
        foremost = λ a n d f.
            least_minimal _ k a e (select_complete candidate jobs a n (candidate_complete a d f));
      }

  pub next_job-none : next_job locked jobs ≡ none → any jobs candidate ≡ false
  next_job-none h = select-eq-nil candidate jobs (least-eq-none _ (sym next-eq-least ∙ h))

  any-free :
      (rest : List Job)
      → ((i : ℕ) → locked i ≡ false)
      → any rest candidate ≡ false
      → any rest (λ a. claimable jobs a) ≡ false
  unfolding candidate
  any-free [] l h = refl
  any-free (j ∷ rest) l h = ground (arith, l j.id, any-free rest l)

  -- Where no row is locked and there is no next job, none is claimable.
  pub nothing_claimable :
      ((i : ℕ) → locked i ≡ false)
      → next_job locked jobs ≡ none
      → any jobs (λ a. claimable jobs a) ≡ false
  nothing_claimable l e = any-free jobs l (next_job-none e)

module _ (locked : ℕ → Bool) (worker : Text) (now : ℕ) (db : Db) where
  -- The claim of `k`: its row is set to running, and the trigger brings its run up to date.
  abbrev pub Took : Job → Type 0
  Took k =
      let jobs = update (has_id k.id) (set_claimed worker now) db.jobs in
      claim_query locked worker now db ≡ (
        record { jobs = jobs; runs = sync_run k.pipeline_run_id now jobs db.runs },
        set_claimed worker now k ∷ [],
      )

  pub took :
      (k : Job)
      → UniqueIds db.jobs
      → IsNext locked db.jobs k
      → next_job locked db.jobs ≡ some k
      → Took k
  unfolding claim_query update_jobs sync_runs
  took k u n e = rw (e, claim_query) (rw (select-has_key id_of db.jobs k.id k u n.stored refl))

  pub not_claimed : next_job locked db.jobs ≡ none → claim_query locked worker now db ≡ (db, [])
  unfolding claim_query
  not_claimed e = rw (e, claim_query)

  -- With distinct ids, either no row is claimable and free, and the claim changes nothing and answers
  -- with no row; or it sets exactly one row to running, brings its run up to date and answers with
  -- it: a pending, free row with no unfinished earlier job in its run, and foremost in the query's
  -- order among the claimable, free rows.
  pub claim_query_lem :
      UniqueIds db.jobs
      → ((any db.jobs (λ a. claimable db.jobs a && not (locked a.id)) ≡ false)
          × (claim_query locked worker now db ≡ (db, [])))
        ⊎ ((k : Job) × IsNext locked db.jobs k × Took k)
  unfolding candidate
  claim_query_lem u = elim (Option-cases (next_job locked db.jobs)) [
    | inl e ↦ inl (next_job-none locked db.jobs e, not_claimed e)
    | inr (k, e) ↦ let n = next_job-IsNext locked db.jobs k e in inr (k, n, took k u n e)
  ]
