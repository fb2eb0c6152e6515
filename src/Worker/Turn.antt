-- ===== src/Worker/Turn.antt =====
-- `runLoop` of `src/worker/worker.service.ts`: one turn of its `while`, and the loop.
use postgres_pipeline_orches.Common.{
  ℕ, Bool, true, false, Option, none, some, List, [], ◌∷◌, ◌==◌, if◌then◌else◌,
}
use postgres_pipeline_orches.Common.Text.{Text}
use postgres_pipeline_orches.Database.{Job, Db, First, Reply, is_fine, if_done}
use postgres_pipeline_orches.JobQueue.{
  Claimed, QueueCall, call, update_heartbeat, claim_next_job, mark_completed, mark_failed,
}
use postgres_pipeline_orches.Outbox.{WebhookOutbox, Outbox, Delivery, process_one_webhook}
use postgres_pipeline_orches.Executor.{Answers, Ended, returned, raised, waiting, execute}

-- One call of `processOneWebhook`: `broken` is one whose claim throws, and `aborted` tells whether
-- the signal is set after it.
pub record Sending : Type 0 where
  pub delivery : Delivery
  pub locked : ℕ → Bool
  pub now : ℕ
  pub broken : Bool
  pub aborted : Bool

-- What reaches the queue while `execute` runs: a heartbeat of its timer, unless it fails, and the calls
-- of others.
pub data Meanwhile : Type 0 where
  tick : (now : ℕ) → Meanwhile
  other : QueueCall → Meanwhile

-- What a turn meets: the claim at `now`, the run of the job with what comes meanwhile, the report at `later`, or the calls for
-- the outbox.
pub record Round : Type 0 where
  pub locked : ℕ → Bool
  pub now : ℕ
  pub claim_reply : Reply
  pub answers : Answers
  pub meanwhile : List Meanwhile
  pub later : ℕ
  pub report_reply : Reply
  pub sendings : List Sending

pub record World : Type 0 where
  pub db : Db
  pub box : Outbox

-- `try { exitCode = await execute(…) } catch { exitCode = 1 }`; no code while the call waits.
abbrev pub exit_code_of : Ended → Option ℕ
exit_code_of (returned code) = some code
exit_code_of raised = some 1
exit_code_of waiting = none

-- `execute` of a job with no id sets no timer.
abbrev pub meantime_call : Option ℕ → Meanwhile → Db → Db
meantime_call none (tick now) db = db
meantime_call (some id) (tick now) db = update_heartbeat id now db
meantime_call id (other c) db = call c db

unfoldable pub meantime : Option ℕ → List Meanwhile → Db → Db
unfolding call
meantime id [] db = db
meantime id (m ∷ ms) db = meantime id ms (meantime_call id m db)

-- The report of a code, at the `id` of the job: `WHERE id = NULL` holds of no row.
abbrev pub report : Option ℕ → ℕ → ℕ → Db → Db
report none exit_code now db = db
report (some id) exit_code now db =
    if exit_code == 0 then mark_completed id exit_code now db else mark_failed id exit_code now db

module _ (first : List WebhookOutbox → First WebhookOutbox) where
  -- `do … while (didWebhook && !aborted)`
  unfoldable pub drain : List Sending → Outbox → Outbox
  drain [] box = box
  drain (s ∷ ss) box =
      let (box', did) = process_one_webhook first s.locked s.now s.delivery box in
      let rest = drain ss box' in
      if s.broken then box else elim did [
        | some true ↦ if s.aborted then box' else rest
        | some false ↦ box'
        | none ↦ box'
      ]

module _ (first_job : List Job → First Job)
    (first_webhook : List WebhookOutbox → First WebhookOutbox) (worker : Text) where
  -- The turn behind a claim: `if (job) { … continue; }`, or the outbox. And whether the turn ends.
  unfoldable pub after_claim : Round → World → Option Claimed → World × Bool
  unfolding meantime
  after_claim r w none = (record w { box = drain first_webhook r.sendings w.box }, true)
  after_claim r w (some job) =
      let db = meantime job.id r.meanwhile w.db in
      elim (exit_code_of (execute r.answers worker job).1) [
        | none ↦ (record w { db = db }, false)
        | some code ↦
            (record w { db = if_done r.report_reply (report job.id code r.later db) db }, true)
      ]

  -- The body of the `while`; where a call throws, the outer `catch` ends the turn.
  unfoldable pub turn : Round → World → World × Bool
  unfolding after_claim
  turn r w =
      let (db', job) = claim_next_job first_job r.locked worker r.now w.db in
      let claimed = record w { db = if_done r.claim_reply db' w.db } in
      if is_fine r.claim_reply then after_claim r claimed job else (claimed, true)

  -- The turns until the signal is set, or one that does not end.
  unfoldable pub run_loop : List Round → World → World
  run_loop [] w = w
  run_loop (r ∷ rs) w =
      let (w', ended) = turn r w in let rest = run_loop rs w' in if ended then rest else w'
