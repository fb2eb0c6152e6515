-- ===== src/JobQueue/Attempts.antt =====
-- How often one job can be claimed: the retry budget across failures and reclaims.
use postgres_pipeline_orches.Common.{
  ℕ, ◌+◌, ◌-◌, ◌≤◌, ◌≡◌, refl, ap, ◌∙◌, inl, inr, Bool, true, false, Option, none, some, List, [],
  ◌∷◌, arith, ◌==◌, if◌then◌else◌, Has, Has-update, Has-append_left, Option-cases,
}
use postgres_pipeline_orches.Common.Text.{Text}
use postgres_pipeline_orches.Common.Keys.{eq_of_key}
use postgres_pipeline_orches.Database.{Status, pending, running, is_terminal, Job, Db}
use postgres_pipeline_orches.JobQueue.{
  QueueCall, insert, claim, heartbeat, complete, fail, reclaim, call, calls, next_job, new_row,
  stuck, set_completed, set_failed, set_heartbeat, set_reclaimed, update_jobs, claim_query,
  set_claimed, insert_new_job, mark_completed, mark_failed, update_heartbeat, reclaim_stuck_jobs,
}
use postgres_pipeline_orches.JobQueue.Rows.{UniqueIds, id_of}
use postgres_pipeline_orches.JobQueue.Claiming.{next_job-IsNext}
use postgres_pipeline_orches.JobQueue.Protocol.{Allowed, AllowedAll, IsSound, call-IsSound}

abbrev pub is_row : ℕ → Option Job → Bool
is_row i none = false
is_row i (some k) = i == k.id

-- Does the call claim the job with this id?
abbrev pub takes : ℕ → QueueCall → Db → Bool
takes i (claim locked worker now) db = is_row i (next_job locked db.jobs)
takes i _ db = false

-- How many calls of a history claim it.
unfoldable pub attempts : ℕ → List QueueCall → Db → ℕ
attempts i [] db = 0
attempts i (c ∷ cs) db = (if takes i c db then 1 else 0) + attempts i cs (call c db)

-- The row of a job after a call.
abbrev pub row_after : QueueCall → Db → Job → Job
row_after (insert id now n) db j = j
row_after (claim locked worker now) db j =
    if takes j.id (claim locked worker now) db then set_claimed worker now j else j
row_after (heartbeat i now) db j = if j.id == i then set_heartbeat now j else j
row_after (complete i code now) db j = if j.id == i then set_completed code now j else j
row_after (fail i code now) db j = if j.id == i then set_failed code j else j
row_after (reclaim timeout now) db j = if stuck timeout now j then set_reclaimed j else j

claim-row :
    (locked : ℕ → Bool) (worker : Text) (now : ℕ) (db : Db) (j : Job)
    → Has j db.jobs
    → Has (row_after (claim locked worker now) db j) (claim_query locked worker now db).0.jobs
unfolding claim_query update_jobs
claim-row locked worker now db j m = elim (Option-cases (next_job locked db.jobs)) [
  | inl e ↦ rw e (rw (e, claim_query) m)
  | inr (k, e) ↦
      rw e
        (rw (e, claim_query) (Has-update (λ x. x.id == k.id) (set_claimed worker now) db.jobs j m))
]

pub call-row :
    (c : QueueCall) (db : Db) (j : Job) → Has j db.jobs → Has (row_after c db j) (call c db).jobs
unfolding call insert_new_job mark_completed mark_failed reclaim_stuck_jobs update_heartbeat
    update_jobs
call-row (insert id now n) db j m = Has-append_left db.jobs (new_row id now n ∷ []) j m
call-row (claim locked worker now) db j m = claim-row locked worker now db j m
call-row (heartbeat i now) db j m = Has-update (λ x. x.id == i) (set_heartbeat now) db.jobs j m
call-row (complete i code now) db j m =
    Has-update (λ x. x.id == i) (set_completed code now) db.jobs j m
call-row (fail i code now) db j m = Has-update (λ x. x.id == i) (set_failed code) db.jobs j m
call-row (reclaim timeout now) db j m = Has-update (stuck timeout now) set_reclaimed db.jobs j m

pub row_after-id : (c : QueueCall) (db : Db) (j : Job) → (row_after c db j).id ≡ j.id
row_after-id (insert id now n) db j = refl
row_after-id (claim locked worker now) db j = ground arith
row_after-id _ db j = ground arith

-- How many claims of a job are still to come, at most.
abbrev pub claims_left : Status → ℕ → ℕ → ℕ
claims_left pending retries limit = limit + 1 - retries
claims_left running retries limit = limit - retries
claims_left _ retries limit = 0

abbrev left : Job → ℕ
left j = claims_left j.status j.retry_count j.max_retries

-- A waiting or running job has not used up its retries.
abbrev pub IsWithin : Job → Type 0
IsWithin j =
    (is_terminal j.status ≡ false → j.retry_count ≤ j.max_retries)
    × (j.retry_count ≤ j.max_retries + 1)

pub taken_waits :
    (locked : ℕ → Bool) (jobs : List Job) (j : Job)
    → UniqueIds jobs
    → Has j jobs
    → is_row j.id (next_job locked jobs) ≡ true
    → j.status ≡ pending
taken_waits locked jobs j u m t = elim (Option-cases (next_job locked jobs)) [
  | inl e ↦ let f : false ≡ true = rw e at t in cc
  | inr (k, e) ↦
      let n = next_job-IsNext locked jobs k e in
      let s : (j.id == k.id) ≡ true = rw e at t in
      let q : j ≡ k = eq_of_key id_of jobs j k u m n.stored (ground arith) in
      ap (λ (x : Job). x.status) q ∙ n.waiting
]

call-IsWithin :
    (c : QueueCall) (db : Db) (j : Job)
    → Allowed db.jobs c
    → UniqueIds db.jobs
    → Has j db.jobs
    → IsWithin j
    → IsWithin (row_after c db j)
call-IsWithin (insert id now n) db j ok u m w = w
call-IsWithin (claim locked worker now) db j ok u m w =
    ground (arith, taken_waits locked db.jobs j u m)
call-IsWithin (heartbeat i now) db j ok u m w = ground arith
call-IsWithin (complete i code now) db j ok u m w = ground arith
call-IsWithin (fail i code now) db j ok u m w = ground (arith, ok j m)
call-IsWithin (reclaim timeout now) db j ok u m w = ground arith

call-left :
    (c : QueueCall) (db : Db) (j : Job)
    → Allowed db.jobs c
    → UniqueIds db.jobs
    → Has j db.jobs
    → IsWithin j
    → (if takes j.id c db then 1 else 0) + left (row_after c db j) ≤ left j
call-left (insert id now n) db j ok u m w = omega arith
call-left (claim locked worker now) db j ok u m w = ground (arith, taken_waits locked db.jobs j u m)
call-left (heartbeat i now) db j ok u m w = ground arith
call-left (complete i code now) db j ok u m w = ground arith
call-left (fail i code now) db j ok u m w = ground (arith, ok j m)
call-left (reclaim timeout now) db j ok u m w = ground arith

-- Over any history that keeps the protocol, from a table with distinct ids whose running jobs have no
-- unfinished earlier job, a job that has not used up its retries is claimed at most once for each
-- retry that it has left, and once more if it is pending. A job that has ended is never claimed.
pub attempts_bounded :
    (cs : List QueueCall) (db : Db) (j : Job)
    → AllowedAll db cs
    → IsSound db.jobs
    → Has j db.jobs
    → IsWithin j
    → attempts j.id cs db ≤ claims_left j.status j.retry_count j.max_retries
unfolding attempts calls
attempts_bounded [] db j ok s m w = omega arith
attempts_bounded (c ∷ cs) db j ok s m w = omega (
  arith,
  call-left c db j ok.0 s.unique m w,
  rest (row_after c db j) (row_after-id c db j) (
      attempts_bounded cs (call c db) (row_after c db j) ok.1 (call-IsSound c db ok.0 s)
        (call-row c db j m) (call-IsWithin c db j ok.0 s.unique m w)),
)
  where
    rest :
        (k : Job)
        → k.id ≡ j.id
        → attempts k.id cs (call c db) ≤ left k
        → attempts j.id cs (call c db) ≤ left k
    rest k e h = rw e at h
