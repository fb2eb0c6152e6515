-- ===== src/JobQueue/Concurrent.antt =====
-- Two claims at once: the second runs while the first holds its row under FOR UPDATE, on the same
-- table, and SKIP LOCKED passes that row.
use postgres_pipeline_orches.Common.{ℕ, ◌≡◌, ◌≢◌, Bool, false, ◌||◌, ◌&&◌, some, List, arith, ◌==◌}
use postgres_pipeline_orches.Database.{Job}
use postgres_pipeline_orches.JobQueue.{earlier, next_job}
use postgres_pipeline_orches.JobQueue.Claiming.{next_job-IsNext}

abbrev pub also_locked : (ℕ → Bool) → ℕ → ℕ → Bool
also_locked locked k i = locked i || i == k

-- If a claim picks `k`, and another, with the row of `k` locked as well, picks `m`, then the two rows
-- have different ids, and neither comes before the other in a common run.
pub claims_apart :
    (locked : ℕ → Bool) (jobs : List Job) (k m : Job)
    → next_job locked jobs ≡ some k
    → next_job (also_locked locked k.id) jobs ≡ some m
    → (m.id ≢ k.id)
      × ((m.pipeline_run_id == k.pipeline_run_id && (earlier m k || earlier k m)) ≡ false)
claims_apart locked jobs k m e f =
    let a = next_job-IsNext locked jobs k e in
    let b = next_job-IsNext (also_locked locked k.id) jobs m f in
    (
      ground (arith, b.free),
      ground (arith, a.gate m b.stored, b.waiting, b.gate k a.stored, a.waiting),
    )
