-- ===== src/Executor/Execute.antt =====
-- `execute` of `src/worker/job-executor.service.ts`, as the effects of a call in their order, and how
-- it ends. What the services and the child process answer is an argument.
use postgres_pipeline_orches.Common.{
  ℕ, Bool, true, false, not, ◌&&◌, Option, none, some, List, [], ◌∷◌, ◌++◌, map, if◌then◌else◌,
}
use postgres_pipeline_orches.Common.Text.{Text, codes, text_eq}
use postgres_pipeline_orches.JobQueue.{Claimed}
use postgres_pipeline_orches.Locks.{AcquireResult, acquired, busy, threw}
use postgres_pipeline_orches.Executor.LineBuffer.{write, flush}
use postgres_pipeline_orches.Executor.Environment.{guess_deploy_environment}

-- The column `log_level`.
pub data Level : Type 0 where
  info warn error : Level

-- What the child process writes, each chunk decoded, and how it ends: a `close`, whose code is null after a signal, or
-- an `error`. Node sends no data after either of them.
pub data Chunk : Type 0 where
  out : Text → Chunk
  err : Text → Chunk

pub data Ending : Type 0 where
  closed : Option ℕ → Ending
  errored : Text → Ending

-- A child with no ending runs on. `refused` is a call of `spawn` that throws.
pub data Spawned : Type 0 where
  refused : Spawned
  started : List Chunk → Option Ending → Spawned

-- The calls of a run of `execute`; that of the lock with its result.
pub data Effect : Type 0 where
  append_log : Text → Level → Effect
  take_lock : Text → Option ℕ → AcquireResult → Effect
  release_lock : Effect
  set_timer : Effect
  clear_timer : Effect
  spawn : Text → Effect

-- What the calls answer: `warned`, `told`, `announced` and `released` tell whether the log lines and
-- the release go through.
pub record Answers : Type 0 where
  pub lock : AcquireResult
  pub warned : Bool
  pub told : Bool
  pub announced : Bool
  pub spawned : Spawned
  pub released : Bool

-- How a call ends; `waiting` is one that does not.
pub data Ended : Type 0 where
  returned : ℕ → Ended
  raised : Ended
  waiting : Ended

abbrev pub Run : Type 0
Run = List Effect × Ended

abbrev pub log_lines : Level → List Text → List Effect
log_lines level = map (λ l. append_log l level)

-- The two listeners at the end of the child.
abbrev pub end_log : Text → Text → Option Ending → List Effect
end_log stdout stderr none = []
end_log stdout stderr (some (closed code)) =
    log_lines info (flush stdout) ++ log_lines error (flush stderr)
end_log stdout stderr (some (errored message)) =
    log_lines info (flush stdout)
    ++ (log_lines error (flush stderr)
        ++ append_log (codes "Execution error: " ++ message) error ∷ [])

-- The listeners of the child, from what the two buffers hold.
unfoldable pub child_log : Text → Text → List Chunk → Option Ending → List Effect
child_log stdout stderr [] ending = end_log stdout stderr ending
child_log stdout stderr (out chunk ∷ chunks) ending =
    let (rest, lines) = write stdout chunk in
    log_lines info lines ++ child_log rest stderr chunks ending
child_log stdout stderr (err chunk ∷ chunks) ending =
    let (rest, lines) = write stderr chunk in
    log_lines error lines ++ child_log stdout rest chunks ending

-- `resolve(code ?? 1)`, `resolve(1)`
abbrev pub exit_of : Option Ending → Ended
exit_of none = waiting
exit_of (some (closed (some code))) = returned code
exit_of (some (closed none)) = returned 1
exit_of (some (errored message)) = returned 1

-- From the line that announces the command to the end of the promise.
unfoldable pub run_command : Answers → Text → Text → Run
unfolding child_log
run_command a worker command =
    let announcement = append_log (codes "worker=" ++ worker ++ codes " exec: " ++ command) info in
    if not a.announced then (announcement ∷ [], raised) else elim a.spawned [
      | refused ↦ (announcement ∷ spawn command ∷ [], raised)
      | started chunks ending ↦
          (announcement ∷ spawn command ∷ child_log [] [] chunks ending, exit_of ending)
    ]

-- The `finally` block, which a call that waits does not reach; a `release` that throws replaces the
-- result.
unfoldable pub finish : Bool → Bool → Answers → Run → Run
finish timer locked a (effects, waiting) = (effects, waiting)
finish timer locked a (effects, ended) = (
  effects
      ++ ((if timer then clear_timer ∷ [] else []) ++ (if locked then release_lock ∷ [] else [])),
  if locked && not a.released then raised else ended,
)

-- The timer, the command and the `finally` block.
unfoldable pub run_guarded : Bool → Answers → Text → Text → Run
unfolding run_command finish
run_guarded locked a worker command =
    let (effects, ended) = run_command a worker command in
    finish true locked a (set_timer ∷ effects, ended)

abbrev pub before_all : List Effect → Run → Run
before_all first (effects, ended) = (first ++ effects, ended)

-- The branch of a deploy.
unfoldable pub run_deploy : Answers → Text → Text → Option ℕ → Run
unfolding run_guarded finish
run_deploy a worker command run =
    let env = guess_deploy_environment command in
    let taken = take_lock env run a.lock in
    let told = append_log (codes "Acquired deploy lock for " ++ env) info in
    elim a.lock [
      | threw ↦ (taken ∷ [], raised)
      | busy ↦ (
        taken ∷ append_log (codes "Deploy lock busy for " ++ env ++ codes "; skipping") warn ∷ [],
        if a.warned then returned 75 else raised,
      )
      | acquired ↦
          if not a.told
          then finish false true a (taken ∷ told ∷ [], raised)
          else before_all (taken ∷ told ∷ []) (run_guarded true a worker command)
    ]

abbrev pub is_deploy : Claimed → Bool
is_deploy job = text_eq job.stage (codes "deploy")

unfoldable pub execute : Answers → Text → Claimed → Run
unfolding run_deploy run_guarded
execute a worker job = elim job.id [
  | none ↦ ([], returned 1)
  | some id ↦
      if is_deploy job
      then run_deploy a worker job.command job.pipeline_run_id
      else run_guarded false a worker job.command
]
