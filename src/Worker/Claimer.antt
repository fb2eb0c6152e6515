-- ===== src/Worker/Claimer.antt =====
-- `claimNextOrWait` of `src/worker/job-claimer.service.ts`.
use postgres_pipeline_orches.Common.{ℕ, Bool, none, some, List, [], ◌∷◌, if◌then◌else◌}
use postgres_pipeline_orches.Common.Text.{Text}
use postgres_pipeline_orches.Database.{Job, Db, First}
use postgres_pipeline_orches.JobQueue.{Claimed, QueueCall, calls, claim_next_job}

-- What a turn of its loop meets: the calls of others since the turn before, the signal, and the claim.
pub record Poll : Type 0 where
  pub others : List QueueCall
  pub aborted : Bool
  pub locked : ℕ → Bool
  pub now : ℕ

-- `polling` is a call that goes on.
pub data Waited : Type 0 where
  claimed : Claimed → Waited
  abort_error polling : Waited

module _ (first : List Job → First Job) (worker : Text) where
  unfoldable pub claim_next_or_wait : List Poll → Db → Db × Waited
  claim_next_or_wait [] db = (db, polling)
  claim_next_or_wait (p ∷ ps) db =
      let before = calls p.others db in
      let (after, job) = claim_next_job first p.locked worker p.now before in
      let rest = claim_next_or_wait ps after in
      if p.aborted
      then (before, abort_error)
      else elim job [ some j ↦ (after, claimed j) | none ↦ rest ]
