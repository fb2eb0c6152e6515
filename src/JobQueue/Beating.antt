-- ===== src/JobQueue/Beating.antt =====
-- A job whose worker sends its heartbeats in time is not taken from it.
use postgres_pipeline_orches.Common.{
  ℕ, ◌+◌, ◌*◌, ◌≤◌, ◌≡◌, ◌≢◌, refl, sym, subst, ◌∙◌, inl, inr, Bool, false, some, List, [], ◌∷◌,
  arith, ◌==◌, if◌then◌else◌, Has, Bool-cases,
}
use postgres_pipeline_orches.Database.{pending, running, Job, Db}
use postgres_pipeline_orches.JobQueue.{
  QueueCall, insert, claim, heartbeat, complete, fail, reclaim, call, calls, next_job, second,
}
use postgres_pipeline_orches.JobQueue.Rows.{UniqueIds}
use postgres_pipeline_orches.JobQueue.Protocol.{AllowedAll, IsSound, call-IsSound}
use postgres_pipeline_orches.JobQueue.Attempts.{is_row, row_after, call-row, taken_waits}

-- The last heartbeat of a job after a call.
abbrev pub next_beat : ℕ → ℕ → QueueCall → ℕ
next_beat i beat (heartbeat k now) = if i == k then now else beat
next_beat i beat _ = beat

unfoldable pub last_beat : ℕ → ℕ → List QueueCall → ℕ
last_beat i beat [] = beat
last_beat i beat (c ∷ cs) = last_beat i (next_beat i beat c) cs

-- The call is no report of the job, and no reclaim later than its timeout after the last heartbeat.
abbrev pub IsInTime : ℕ → ℕ → QueueCall → Type 0
IsInTime i beat (reclaim timeout now) = now ≤ beat + timeout * second
IsInTime i beat (complete k code now) = i ≢ k
IsInTime i beat (fail k code now) = i ≢ k
IsInTime i beat _ = Unit {0}

abbrev pub IsBeating : ℕ → ℕ → List QueueCall → Type 0
IsBeating i beat [] = Unit {0}
IsBeating i beat (c ∷ cs) = IsInTime i beat c × IsBeating i (next_beat i beat c) cs

-- The row with this heartbeat.
abbrev pub beaten : ℕ → Job → Job
beaten beat j = record j { heartbeat_at = some beat }

not_taken :
    (locked : ℕ → Bool) (jobs : List Job) (j : Job)
    → UniqueIds jobs
    → Has j jobs
    → j.status ≡ running
    → is_row j.id (next_job locked jobs) ≡ false
not_taken locked jobs j u m r = elim (Bool-cases (is_row j.id (next_job locked jobs))) [
  | inl t ↦ let q : running ≡ pending = sym r ∙ taken_waits locked jobs j u m t in cc
  | inr t ↦ t
]

pub row_after-beaten :
    (c : QueueCall) (db : Db) (j : Job) (beat : ℕ)
    → UniqueIds db.jobs
    → Has (beaten beat j) db.jobs
    → j.status ≡ running
    → IsInTime j.id beat c
    → row_after c db (beaten beat j) ≡ beaten (next_beat j.id beat c) j
row_after-beaten (insert id now n) db j beat u m r h = refl
row_after-beaten (claim locked worker now) db j beat u m r h =
    rw (not_taken locked db.jobs (beaten beat j) u m r) refl
row_after-beaten (heartbeat k now) db j beat u m r h = ground arith
row_after-beaten (complete k code now) db j beat u m r h = ground arith
row_after-beaten (fail k code now) db j beat u m r h = ground arith
row_after-beaten (reclaim timeout now) db j beat u m r h = ground arith

-- Over any history that keeps the protocol, from a table with distinct ids whose running jobs have no
-- unfinished earlier job: the row of a running job stays as it is, its heartbeat apart, as long as no
-- report of it comes, and each reclaim comes within its timeout of the last heartbeat.
pub beating_job_kept :
    (cs : List QueueCall) (db : Db) (j : Job) (beat : ℕ)
    → AllowedAll db cs
    → IsSound db.jobs
    → Has (beaten beat j) db.jobs
    → j.status ≡ running
    → IsBeating j.id beat cs
    → Has (beaten (last_beat j.id beat cs) j) (calls cs db).jobs
unfolding calls last_beat
beating_job_kept [] db j beat ok s m r h = m
beating_job_kept (c ∷ cs) db j beat ok s m r h =
    beating_job_kept cs (call c db) j (next_beat j.id beat c) ok.1 (call-IsSound c db ok.0 s)
      (subst (λ x. Has x (call c db).jobs) (row_after-beaten c db j beat s.unique m r h.0)
        (call-row c db (beaten beat j) m))
      r h.1
