-- ===== src/Worker/Stalled.antt =====
-- A worker whose driver answers an UPDATE with the rows and their number, as TypeORM does.
use postgres_pipeline_orches.Common.{
  ◌≡◌, refl, sym, ap, subst, ◌∙◌, Bool, true, none, some, List, [], ◌∷◌, ◌++◌, if◌then◌else◌,
}
use postgres_pipeline_orches.Common.Text.{Text}
use postgres_pipeline_orches.Database.{
  Job, Db, First, AnswersCount, Reply, fine, lost, failed, is_fine, if_done,
}
use postgres_pipeline_orches.JobQueue.{Claimed, QueueCall, claim, call, calls, claim_next_job}
use postgres_pipeline_orches.JobQueue.Driver.{claim_next_job_by_count}
use postgres_pipeline_orches.Outbox.{WebhookOutbox}
use postgres_pipeline_orches.Executor.{execute}
use postgres_pipeline_orches.Worker.History.{calls-append}
use postgres_pipeline_orches.Worker.Turn.{
  Meanwhile, tick, other, meantime, Round, World, after_claim, turn, run_loop,
}

-- The calls of others alone, and the claim of a round.
abbrev pub others : List Meanwhile → List QueueCall
others [] = []
others (tick now ∷ ms) = others ms
others (other c ∷ ms) = c ∷ others ms

abbrev pub own : Text → Round → Reply → List QueueCall
own worker r fine = claim r.locked worker r.now ∷ others r.meanwhile
own worker r lost = claim r.locked worker r.now ∷ []
own worker r failed = []

-- The claims of the rounds, and what others do.
abbrev pub claims_alone : Text → List Round → List QueueCall
claims_alone worker [] = []
claims_alone worker (r ∷ rs) = own worker r r.claim_reply ++ claims_alone worker rs

no_ticks : (ms : List Meanwhile) (db : Db) → meantime none ms db ≡ calls (others ms) db
unfolding meantime calls
no_ticks [] db = refl
no_ticks (tick now ∷ ms) db = no_ticks ms db
no_ticks (other c ∷ ms) db = no_ticks ms (call c db)

same_db : (r : Reply) (db : Db) → if_done r db db ≡ db
same_db fine db = refl
same_db lost db = refl
same_db failed db = refl

abbrev nameless : Claimed
nameless = record { id = none; command = []; stage = []; pipeline_run_id = none }

-- Such a turn ends, and leaves the outbox.
abbrev Turned : List QueueCall → World → World × Bool → Type 0
Turned cs w (w', ended) = (w'.db ≡ calls cs w.db) × (w'.box ≡ w.box) × (ended ≡ true)

module _ (first_job : List Job → First Job)
    (first_webhook : List WebhookOutbox → First WebhookOutbox) (worker : Text)
    (d : AnswersCount first_job) where
  nameless-Turned :
      (r : Round) (w : World)
      → Turned
          (others r.meanwhile)
          w
          (after_claim first_job first_webhook worker r w (some nameless))
  unfolding after_claim execute
  nameless-Turned r w = (
    same_db r.report_reply (meantime none r.meanwhile w.db) ∙ no_ticks r.meanwhile w.db,
    refl,
    refl,
  )

  turn-Turned :
      (r : Round) (w : World)
      → Turned (own worker r r.claim_reply) w (turn first_job first_webhook worker r w)
  unfolding turn calls call claim_next_job
  turn-Turned r w = by_reply r.claim_reply
    where
      by_reply :
          (q : Reply)
          → let (db', job) = claim_next_job first_job r.locked worker r.now w.db in
            let claimed = record w { db = if_done q db' w.db } in
            Turned (own worker r q) w (
              if is_fine q
              then after_claim first_job first_webhook worker r claimed job
              else (claimed, true))
      by_reply failed = (refl, refl, refl)
      by_reply lost = (refl, refl, refl)
      by_reply fine =
          let v = record w { db = (claim_next_job first_job r.locked worker r.now w.db).0 } in
          subst
            (λ job.
              Turned (own worker r fine) w (after_claim first_job first_webhook worker r v job))
            (sym (claim_next_job_by_count first_job r.locked worker r.now w.db d))
            (nameless-Turned r v)

  -- Where the driver answers an UPDATE with the rows and their number, as TypeORM does: whatever a
  -- worker's loop meets, all that it does itself is to claim. The tables change as by its claims and
  -- the calls of others alone, so that no claimed job gets a heartbeat or a report from it, and it
  -- never touches the outbox.
  pub nothing_reported :
      (rs : List Round) (w : World)
      → ((run_loop first_job first_webhook worker rs w).db ≡ calls (claims_alone worker rs) w.db)
        × ((run_loop first_job first_webhook worker rs w).box ≡ w.box)
  unfolding run_loop calls
  nothing_reported [] w = (refl, refl)
  nothing_reported (r ∷ rs) w =
      let (same, box, ended) = turn-Turned r w in
      let (rest, kept) = nothing_reported rs (turn first_job first_webhook worker r w).0 in
      rw ended (
        rest
            ∙ ap (calls (claims_alone worker rs)) same
            ∙ sym (calls-append (own worker r r.claim_reply) (claims_alone worker rs) w.db),
        kept ∙ box,
      )
