-- ===== src/Executor/Success.antt =====
-- When `execute` returns 0, which has the worker report a success.
use postgres_pipeline_orches.Common.{
  ℕ, ◌≡◌, refl, sym, ◌∙◌, inl, inr, ◌↔◌, Bool, true, false, not, ◌&&◌, Option, none, some, List,
  arith, if◌then◌else◌, is_some, Bool-cases, Option-cases,
}
use postgres_pipeline_orches.Common.Text.{Text}
use postgres_pipeline_orches.JobQueue.{Claimed}
use postgres_pipeline_orches.Locks.{AcquireResult, acquired, busy, threw}
use postgres_pipeline_orches.Executor.{
  Chunk, closed, errored, Spawned, refused, started, Answers, returned, raised, run_command, finish,
  run_guarded, run_deploy, is_deploy, execute,
}

never_raised : (b : Bool) → ¬ ((if b then raised else raised) ≡ returned 0)
never_raised true z = cc
never_raised false z = cc

one_fails : (b : Bool) → ¬ ((if b then raised else returned 1) ≡ returned 0)
one_fails true z = cc
one_fails false z = cc

busy_fails : (b : Bool) → ¬ ((if b then returned 75 else raised) ≡ returned 0)
busy_fails true z = cc
busy_fails false z = cc

returned_zero :
    (b : Bool) (code : ℕ)
    → (if b then raised else returned code) ≡ returned 0
    → (b ≡ false) × (code ≡ 0)
returned_zero true code z = cc
returned_zero false code z = (refl, cc)

-- The command ran, and its process closed with code 0.
abbrev pub ClosedZero : Answers → Type 0
ClosedZero a =
    (a.announced ≡ true)
    × ((chunks : List Chunk) × (a.spawned ≡ started chunks (some (closed (some 0)))))

module _ (lock : AcquireResult) (warned told released : Bool) (worker command : Text) where
  abbrev answers : Bool → Spawned → Answers
  answers announced spawned = record {
    lock = lock;
    warned = warned;
    told = told;
    announced = announced;
    spawned = spawned;
    released = released;
  }

  guarded_zero :
      (locked announced : Bool) (spawned : Spawned)
      → (run_guarded locked (answers announced spawned) worker command).1 ≡ returned 0
      → ((locked && not released) ≡ false) × ClosedZero (answers announced spawned)
  unfolding run_guarded run_command finish
  guarded_zero locked false spawned z = absurd (never_raised _ z)
  guarded_zero locked true refused z = absurd (never_raised _ z)
  guarded_zero locked true (started chunks none) z = cc
  guarded_zero locked true (started chunks (some (closed none))) z = absurd (one_fails _ z)
  guarded_zero locked true (started chunks (some (closed (some code)))) z =
      let (b, e) = returned_zero _ code z in (b, (refl, (chunks, rw e refl)))
  guarded_zero locked true (started chunks (some (errored message))) z = absurd (one_fails _ z)

-- What a deploy needs besides.
abbrev pub Deployed : Answers → Type 0
Deployed a = (a.lock ≡ acquired) × ((a.told ≡ true) × (a.released ≡ true))

module _ (warned released announced : Bool) (spawned : Spawned) (worker command : Text)
    (run : Option ℕ) where
  -- By the answer to the lock and to the line that tells of it.
  deploy_zero :
      (r : AcquireResult) (told : Bool)
      → let a = answers r warned told released worker command announced spawned in
        (run_deploy a worker command run).1 ≡ returned 0 → Deployed a × ClosedZero a
  unfolding run_deploy finish
  deploy_zero threw told z = absurd (never_raised true z)
  deploy_zero busy told z = absurd (busy_fails warned z)
  deploy_zero acquired false z = absurd (never_raised (not released) z)
  deploy_zero acquired true z =
      let (b, c) =
        guarded_zero acquired warned true released worker command true announced spawned z in
      ((refl, (refl, ground (arith, b))), c)

module _ (a : Answers) (worker : Text) (job : Claimed) where
  guarded_returns :
      (locked : Bool)
      → (locked && not a.released) ≡ false
      → ClosedZero a
      → (run_guarded locked a worker job.command).1 ≡ returned 0
  unfolding run_guarded run_command finish
  guarded_returns locked b (t, (chunks, s)) = rw (t, s) (rw b refl)

  deploy_end :
      a.lock ≡ acquired
      → a.told ≡ true
      → (run_deploy a worker job.command job.pipeline_run_id).1
        ≡ (run_guarded true a worker job.command).1
  unfolding run_deploy
  deploy_end l t = rw (l, t) refl

  deploy_returns :
      Deployed a
      → ClosedZero a
      → (run_deploy a worker job.command job.pipeline_run_id).1 ≡ returned 0
  deploy_returns (l, (t, r)) c = deploy_end l t ∙ guarded_returns true (rw r refl) c

  execute-none : job.id ≡ none → (execute a worker job).1 ≡ returned 1
  unfolding execute
  execute-none e = rw e refl

  execute_deploy :
      (i : ℕ)
      → job.id ≡ some i
      → is_deploy job ≡ true
      → (execute a worker job).1 ≡ (run_deploy a worker job.command job.pipeline_run_id).1
  unfolding execute
  execute_deploy i e d = rw (e, d) refl

  execute_plain :
      (i : ℕ)
      → job.id ≡ some i
      → is_deploy job ≡ false
      → (execute a worker job).1 ≡ (run_guarded false a worker job.command).1
  unfolding execute
  execute_plain i e d = rw (e, d) refl

  abbrev pub Succeeds : Type 0
  Succeeds = (is_some job.id ≡ true) × (ClosedZero a × (is_deploy job ≡ true → Deployed a))

  -- `execute` returns 0 just where the job has an id, the line that announces the command went
  -- through, the child closed with code 0, and, for a deploy, the lock was acquired, its line went
  -- through and its release did not throw.
  pub execute-zero_iff : ((execute a worker job).1 ≡ returned 0) ↔ Succeeds
  execute-zero_iff = elim (Option-cases job.id) [
    | inl e ↦ (
      λ z. absurd (one_fails false (sym (execute-none e) ∙ z)),
      λ (h, c). let f : false ≡ true = rw e at h in cc,
    )
    | inr (i, e) ↦ elim (Bool-cases (is_deploy job)) [
      | inl d ↦ (
        λ z.
            let (l, c) =
              deploy_zero a.warned a.released a.announced a.spawned worker job.command
                job.pipeline_run_id a.lock a.told (sym (execute_deploy i e d) ∙ z) in
            (rw e refl, (c, λ _. l)),
        λ (h, (c, l)). execute_deploy i e d ∙ deploy_returns (l d) c,
      )
      | inr d ↦ (
        λ z.
            let (b, c) =
              guarded_zero a.lock a.warned a.told a.released worker job.command false a.announced
                a.spawned (sym (execute_plain i e d) ∙ z) in
            (rw e refl, (c, λ t. let f : false ≡ true = sym d ∙ t in cc)),
        λ (h, (c, l)). execute_plain i e d ∙ guarded_returns false refl c,
      )
    ]
  ]
