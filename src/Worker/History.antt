-- ===== src/Worker/History.antt =====
-- A worker's loop as a history of calls of the queue, so that what holds over every history holds
-- under any workers.
use postgres_pipeline_orches.Common.{
  ℕ, ◌≡◌, refl, sym, ap, ◌∙◌, inl, inr, true, Option, none, some, List, [], ◌∷◌, ◌++◌, ◌==◌,
  if◌then◌else◌, Bool-cases, Option-cases,
}
use postgres_pipeline_orches.Common.Text.{Text}
use postgres_pipeline_orches.Database.{Job, Db, First, Reply, fine, lost, failed, is_fine, if_done}
use postgres_pipeline_orches.JobQueue.{
  Claimed, QueueCall, claim, heartbeat, complete, fail, call, calls, claim_next_job,
}
use postgres_pipeline_orches.Outbox.{WebhookOutbox}
use postgres_pipeline_orches.Executor.{execute}
use postgres_pipeline_orches.Worker.Turn.{
  Meanwhile, tick, other, meantime, Round, World, exit_code_of, report, after_claim, turn, run_loop,
}

-- The report of an exit code, if it takes effect.
abbrev pub reports : Option ℕ → ℕ → ℕ → Reply → List QueueCall
reports none exit_code now r = []
reports (some id) exit_code now failed = []
reports (some id) exit_code now r =
    if exit_code == 0 then complete id exit_code now ∷ [] else fail id exit_code now ∷ []

reports_lem :
    (id : Option ℕ) (exit_code now : ℕ) (r : Reply) (db : Db)
    → if_done r (report id exit_code now db) db ≡ calls (reports id exit_code now r) db
unfolding calls call
reports_lem none exit_code now fine db = refl
reports_lem none exit_code now lost db = refl
reports_lem none exit_code now failed db = refl
reports_lem (some id) exit_code now fine db = elim (Bool-cases (exit_code == 0)) [
  | inl e ↦ rw e refl
  | inr e ↦ rw e refl
]
reports_lem (some id) exit_code now lost db = elim (Bool-cases (exit_code == 0)) [
  | inl e ↦ rw e refl
  | inr e ↦ rw e refl
]
reports_lem (some id) exit_code now failed db = refl

pub calls-append : (cs ds : List QueueCall) (db : Db) → calls (cs ++ ds) db ≡ calls ds (calls cs db)
unfolding calls
calls-append [] ds db = refl
calls-append (c ∷ cs) ds db = calls-append cs ds (call c db)

-- What comes while a job runs.
abbrev pub meantime_calls : Option ℕ → List Meanwhile → List QueueCall
meantime_calls id [] = []
meantime_calls none (tick now ∷ ms) = meantime_calls none ms
meantime_calls (some i) (tick now ∷ ms) = heartbeat i now ∷ meantime_calls (some i) ms
meantime_calls id (other c ∷ ms) = c ∷ meantime_calls id ms

meantime_lem :
    (id : Option ℕ) (ms : List Meanwhile) (db : Db)
    → meantime id ms db ≡ calls (meantime_calls id ms) db
unfolding meantime calls call
meantime_lem none [] db = refl
meantime_lem (some i) [] db = refl
meantime_lem none (tick now ∷ ms) db = meantime_lem none ms db
meantime_lem (some i) (tick now ∷ ms) db = meantime_lem (some i) ms (call (heartbeat i now) db)
meantime_lem none (other c ∷ ms) db = meantime_lem none ms (call c db)
meantime_lem (some i) (other c ∷ ms) db = meantime_lem (some i) ms (call c db)

module _ (first_job : List Job → First Job)
    (first_webhook : List WebhookOutbox → First WebhookOutbox) (worker : Text) where
  -- The calls of the part of a turn behind its claim.
  abbrev pub later_calls : Round → Option Claimed → List QueueCall
  later_calls r none = []
  later_calls r (some job) = elim (exit_code_of (execute r.answers worker job).1) [
    | none ↦ meantime_calls job.id r.meanwhile
    | some code ↦ meantime_calls job.id r.meanwhile ++ reports job.id code r.later r.report_reply
  ]

  abbrev pub claim_calls : Round → Reply → Option Claimed → List QueueCall
  claim_calls r failed job = []
  claim_calls r lost job = claim r.locked worker r.now ∷ []
  claim_calls r fine job = claim r.locked worker r.now ∷ later_calls r job

  -- The calls of a turn, and of the loop.
  abbrev pub turn_calls : Round → World → List QueueCall
  turn_calls r w =
      claim_calls r r.claim_reply (claim_next_job first_job r.locked worker r.now w.db).1

  unfoldable pub loop_calls : List Round → World → List QueueCall
  loop_calls [] w = []
  loop_calls (r ∷ rs) w =
      let (w', ended) = turn first_job first_webhook worker r w in
      let rest = loop_calls rs w' in turn_calls r w ++ (if ended then rest else [])

  later_lem :
      (r : Round) (w : World) (job : Option Claimed)
      → (after_claim first_job first_webhook worker r w job).0.db ≡ calls (later_calls r job) w.db
  unfolding after_claim calls
  later_lem r w none = refl
  later_lem r w (some job) = elim (Option-cases (exit_code_of (execute r.answers worker job).1)) [
    | inl e ↦ rw (e, after_claim, later_calls) (meantime_lem job.id r.meanwhile w.db)
    | inr (code, e) ↦
        rw (e, after_claim, later_calls)
          (reports_lem job.id code r.later r.report_reply (meantime job.id r.meanwhile w.db)
            ∙ ap (calls (reports job.id code r.later r.report_reply))
                (meantime_lem job.id r.meanwhile w.db)
            ∙ sym (
                calls-append (meantime_calls job.id r.meanwhile)
                  (reports job.id code r.later r.report_reply) w.db))
  ]

  turn_lem :
      (r : Round) (w : World)
      → (turn first_job first_webhook worker r w).0.db ≡ calls (turn_calls r w) w.db
  unfolding turn claim_next_job calls call
  turn_lem r w = by_reply r.claim_reply
    where
      by_reply :
          (q : Reply)
          → let (db', job) = claim_next_job first_job r.locked worker r.now w.db in
            let claimed = record w { db = if_done q db' w.db } in
            (if is_fine q
              then after_claim first_job first_webhook worker r claimed job
              else (claimed, true)).0.db
            ≡ calls (claim_calls r q job) w.db
      by_reply failed = refl
      by_reply lost = refl
      by_reply fine =
          later_lem r (record w { db = (claim_next_job first_job r.locked worker r.now w.db).0 })
            (claim_next_job first_job r.locked worker r.now w.db).1

  -- A worker's loop, whatever it meets, changes the tables of the queue as the history of its claims,
  -- heartbeats and reports does, with the calls of others that come while its jobs run.
  pub run_loop-calls :
      (rs : List Round) (w : World)
      → (run_loop first_job first_webhook worker rs w).db ≡ calls (loop_calls rs w) w.db
  unfolding run_loop loop_calls calls
  run_loop-calls [] w = refl
  run_loop-calls (r ∷ rs) w = elim (Bool-cases (turn first_job first_webhook worker r w).1) [
    | inl t ↦ rw t (
        run_loop-calls rs (turn first_job first_webhook worker r w).0
        ∙ ap (calls (loop_calls rs (turn first_job first_webhook worker r w).0)) (turn_lem r w)
        ∙ sym (calls-append (turn_calls r w) _ w.db))
    | inr t ↦ rw t (turn_lem r w ∙ sym (calls-append (turn_calls r w) [] w.db))
  ]
