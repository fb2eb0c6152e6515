-- ===== src/Executor/Resources.antt =====
-- What `execute` holds: the deploy lock and the heartbeat timer are given back on every path that
-- ends, and a command of a deploy runs only under its lock.
use postgres_pipeline_orches.Common.{
  ℕ, ◌≡◌, ◌≢◌, refl, ap, ◌∙◌, inl, inr, Bool, true, false, not, ◌&&◌, ◌||◌, Option, none, some,
  List, [], ◌∷◌, ◌++◌, if◌then◌else◌, Bool-cases, Option-cases, ◌⊎◌, append_assoc,
}
use postgres_pipeline_orches.Common.Text.{Text}
use postgres_pipeline_orches.JobQueue.{Claimed}
use postgres_pipeline_orches.Locks.{AcquireResult, acquired, busy, threw}
use postgres_pipeline_orches.Executor.{
  write, flush, Level, info, error, Chunk, out, err, Ending, closed, errored, Spawned, refused,
  started, Effect, append_log, take_lock, release_lock, set_timer, clear_timer, spawn, Answers,
  Ended, waiting, Run, before_all, log_lines, end_log, child_log, run_command, finish, run_guarded,
  run_deploy, is_deploy, execute,
}

-- Replays the effects from a state of the lock and of the timer: a lock is taken where none is held
-- and released where it is, so is the timer set and cleared, and a command is spawned under the timer
-- and, in a deploy, under the lock; at the end nothing is held.
unfoldable pub is_tidy : Bool → Bool → Bool → List Effect → Bool
is_tidy deploy lock timer [] = not lock && not timer
is_tidy deploy lock timer (append_log l level ∷ es) = is_tidy deploy lock timer es
is_tidy deploy lock timer (take_lock env run acquired ∷ es) =
    not lock && is_tidy deploy true timer es
is_tidy deploy lock timer (take_lock env run busy ∷ es) = not lock && is_tidy deploy lock timer es
is_tidy deploy lock timer (take_lock env run threw ∷ es) = not lock && is_tidy deploy lock timer es
is_tidy deploy lock timer (release_lock ∷ es) = lock && is_tidy deploy false timer es
is_tidy deploy lock timer (set_timer ∷ es) = not timer && is_tidy deploy lock true es
is_tidy deploy lock timer (clear_timer ∷ es) = timer && is_tidy deploy lock false es
is_tidy deploy lock timer (spawn command ∷ es) =
    (timer && (lock || not deploy)) && is_tidy deploy lock timer es

module _ (deploy lock timer : Bool) where
  -- Effects that hold and give back nothing.
  abbrev IsQuiet : List Effect → Type 0
  IsQuiet es =
      (rest : List Effect) → is_tidy deploy lock timer (es ++ rest) ≡ is_tidy deploy lock timer rest

  append-IsQuiet : (es fs : List Effect) → IsQuiet es → IsQuiet fs → IsQuiet (es ++ fs)
  append-IsQuiet es fs q r rest =
      ap (is_tidy deploy lock timer) (append_assoc es fs rest) ∙ q (fs ++ rest) ∙ r rest

  log_lines-IsQuiet : (level : Level) (ls : List Text) → IsQuiet (log_lines level ls)
  unfolding is_tidy
  log_lines-IsQuiet level [] rest = refl
  log_lines-IsQuiet level (l ∷ ls) rest = log_lines-IsQuiet level ls rest

  end_log-IsQuiet : (o e : Text) (ending : Option Ending) → IsQuiet (end_log o e ending)
  unfolding is_tidy
  end_log-IsQuiet o e none = λ rest. refl
  end_log-IsQuiet o e (some (closed code)) =
      append-IsQuiet (log_lines info (flush o)) (log_lines error (flush e))
        (log_lines-IsQuiet info (flush o)) (log_lines-IsQuiet error (flush e))
  end_log-IsQuiet o e (some (errored message)) =
      append-IsQuiet (log_lines info (flush o)) _ (log_lines-IsQuiet info (flush o)) (
        append-IsQuiet (log_lines error (flush e)) (append_log _ error ∷ [])
          (log_lines-IsQuiet error (flush e)) (λ rest. refl))

  child_log-IsQuiet :
      (o e : Text) (chunks : List Chunk) (ending : Option Ending)
      → IsQuiet (child_log o e chunks ending)
  unfolding child_log
  child_log-IsQuiet o e [] ending = end_log-IsQuiet o e ending
  child_log-IsQuiet o e (out c ∷ cs) ending =
      append-IsQuiet (log_lines info (write o c).1) _ (log_lines-IsQuiet info (write o c).1)
        (child_log-IsQuiet (write o c).0 e cs ending)
  child_log-IsQuiet o e (err c ∷ cs) ending =
      append-IsQuiet (log_lines error (write e c).1) _ (log_lines-IsQuiet error (write e c).1)
        (child_log-IsQuiet o (write e c).0 cs ending)

module _ (deploy locked : Bool) (h : (locked || not deploy) ≡ true) where
  abbrev given_back : List Effect
  given_back = clear_timer ∷ (if locked then release_lock ∷ [] else [])

  given_back-is_tidy : is_tidy deploy locked true given_back ≡ true
  unfolding is_tidy
  given_back-is_tidy = elim (Bool-cases locked) [ inl e ↦ rw e refl | inr e ↦ rw e refl ]

  child-is_tidy :
      (chunks : List Chunk) (ending : Option Ending)
      → is_tidy deploy locked true (child_log [] [] chunks ending ++ given_back) ≡ true
  child-is_tidy chunks ending =
      child_log-IsQuiet deploy locked true [] [] chunks ending given_back ∙ given_back-is_tidy

  module _ (lock : AcquireResult) (warned told : Bool) (released : Bool)
      (worker command : Text) where
    abbrev guarded : Bool → Spawned → List Effect × Ended
    guarded announced spawned =
        run_guarded locked
          (record {
            lock = lock;
            warned = warned;
            told = told;
            announced = announced;
            spawned = spawned;
            released = released;
          })
          worker command

    guarded-is_tidy :
        (announced : Bool) (spawned : Spawned)
        → (guarded announced spawned).1 ≢ waiting
        → is_tidy deploy locked false (guarded announced spawned).0 ≡ true
    unfolding is_tidy run_guarded run_command finish
    guarded-is_tidy false spawned w = given_back-is_tidy
    guarded-is_tidy true refused w = rw h given_back-is_tidy
    guarded-is_tidy true (started chunks none) w = absurd (w refl)
    guarded-is_tidy true (started chunks (some (closed none))) w =
        rw h (child-is_tidy chunks (some (closed none)))
    guarded-is_tidy true (started chunks (some (closed (some code)))) w =
        rw h (child-is_tidy chunks (some (closed (some code))))
    guarded-is_tidy true (started chunks (some (errored message))) w =
        rw h (child-is_tidy chunks (some (errored message)))

pub result_cases : (r : AcquireResult) → (r ≡ threw) ⊎ ((r ≡ busy) ⊎ (r ≡ acquired))
result_cases threw = inl refl
result_cases busy = inr (inl refl)
result_cases acquired = inr (inr refl)

module _ (a : Answers) (worker : Text) where
  guarded_tidy :
      (command : Text) (deploy locked : Bool)
      → (locked || not deploy) ≡ true
      → (run_guarded locked a worker command).1 ≢ waiting
      → is_tidy deploy locked false (run_guarded locked a worker command).0 ≡ true
  guarded_tidy command deploy locked h =
      guarded-is_tidy deploy locked h a.lock a.warned a.told a.released worker command a.announced
        a.spawned

  before_all-end : (first : List Effect) (r : Run) → (before_all first r).1 ≡ r.1
  before_all-end first r = refl

  deploy-is_tidy :
      (command : Text) (run : Option ℕ)
      → (run_deploy a worker command run).1 ≢ waiting
      → is_tidy true false false (run_deploy a worker command run).0 ≡ true
  unfolding is_tidy run_deploy finish
  deploy-is_tidy command run = elim (result_cases a.lock) [
    | inl e ↦ rw e (λ w. refl)
    | inr (inl e) ↦ rw e (λ w. refl)
    | inr (inr e) ↦ rw e (elim (Bool-cases a.told) [
      | inl t ↦ rw t (guarded_tidy command true true refl)
      | inr t ↦ rw t (λ w. refl)
    ])
  ]

  -- Every call of `execute` that ends has released the lock that it took and cleared the timer that
  -- it set, each once, also where a service or the child fails; and it spawned no command without the
  -- timer, and no deploy without the lock.
  pub execute-is_tidy :
      (job : Claimed)
      → (execute a worker job).1 ≢ waiting
      → is_tidy (is_deploy job) false false (execute a worker job).0 ≡ true
  unfolding is_tidy execute
  execute-is_tidy job = elim (Option-cases job.id) [
    | inl e ↦ rw e (λ w. refl)
    | inr (i, e) ↦ rw e (elim (Bool-cases (is_deploy job)) [
      | inl d ↦ rw d (deploy-is_tidy job.command job.pipeline_run_id)
      | inr d ↦ rw d (guarded_tidy job.command false false refl)
    ])
  ]
