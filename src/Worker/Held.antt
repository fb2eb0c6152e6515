-- ===== src/Worker/Held.antt =====
-- The rows of the jobs that the workers run, through the calls of the queue.
use postgres_pipeline_orches.Common.{
  ℕ, ◌≡◌, ◌≢◌, refl, sym, ap, subst, ◌∙◌, inl, inr, not, some, List, [], ◌∷◌, arith, ◌==◌, Has, All,
  All-imp, All-select, Bool-cases,
}
use postgres_pipeline_orches.Common.Keys.{UniqueKeys, select-UniqueKeys, eq_of_key}
use postgres_pipeline_orches.Database.{running, pending, Job, Db}
use postgres_pipeline_orches.JobQueue.{QueueCall, heartbeat, complete, fail, call}
use postgres_pipeline_orches.JobQueue.Rows.{UniqueIds, id_of}
use postgres_pipeline_orches.JobQueue.Protocol.{Allowed, IsSound, call-IsSound}
use postgres_pipeline_orches.JobQueue.Attempts.{call-row}
use postgres_pipeline_orches.JobQueue.Beating.{beaten, next_beat, IsInTime, row_after-beaten}
use postgres_pipeline_orches.Worker.Turn.{report}
use postgres_pipeline_orches.Worker.Fleet.{Runner, Fleet, stop_runner, beat_runner}

abbrev pub job_of : Runner → ℕ
job_of h = h.job_id

-- The row of a runner's job: it is running, with the runner's last heartbeat.
pub record IsHeld (jobs : List Job) (h : Runner) : Type 0 where
  pub row : Job
  pub same : row.id ≡ h.job_id
  pub runs : row.status ≡ running
  pub stored : Has (beaten h.beat row) jobs

pub record IsExclusive (s : Fleet) : Type 0 where
  pub apart : UniqueKeys job_of s.runners
  pub held : All (IsHeld s.db.jobs) s.runners
  pub sound : IsSound s.db.jobs

abbrev pub moved : QueueCall → Runner → Runner
moved c h = record h { beat = next_beat h.job_id h.beat c }

-- A call that is in time for a runner leaves it its row.
call-IsHeld :
    (c : QueueCall) (db : Db) (h : Runner)
    → UniqueIds db.jobs
    → IsInTime h.job_id h.beat c
    → IsHeld db.jobs h
    → IsHeld (call c db).jobs (moved c h)
call-IsHeld c db h u t k = record {
  row = k.row;
  same = k.same;
  runs = k.runs;
  stored =
      let t' : IsInTime k.row.id h.beat c = subst (λ i. IsInTime i h.beat c) (sym k.same) t in
      let m = call-row c db (beaten h.beat k.row) k.stored in
      let e = row_after-beaten c db k.row h.beat u k.stored k.runs t' in
      subst (λ i. Has (beaten (next_beat i h.beat c) k.row) (call c db).jobs) k.same
        (subst (λ x. Has x (call c db).jobs) e m);
}

pub calls-IsHeld :
    (c : QueueCall) (db : Db) (rs : List Runner)
    → UniqueIds db.jobs
    → All (λ h. IsInTime h.job_id h.beat c) rs
    → All (IsHeld db.jobs) rs
    → All (λ h. IsHeld (call c db).jobs (moved c h)) rs
calls-IsHeld c db [] u t k = tt
calls-IsHeld c db (h ∷ rs) u t k = (call-IsHeld c db h u t.0 k.0, calls-IsHeld c db rs u t.1 k.1)

pub any_time :
    (c : QueueCall) (rs : List Runner)
    → ((h : Runner) → IsInTime h.job_id h.beat c)
    → All (λ h. IsInTime h.job_id h.beat c) rs
any_time c [] t = tt
any_time c (h ∷ rs) t = (t h, any_time c rs t)

pub beaten_runners :
    (i now : ℕ) (db : Db) (rs : List Runner)
    → All (λ h. IsHeld (call (heartbeat i now) db).jobs (moved (heartbeat i now) h)) rs
    → All (IsHeld (call (heartbeat i now) db).jobs) (beat_runner i now rs)
beaten_runners i now db [] k = tt
beaten_runners i now db (h ∷ rs) k = elim (Bool-cases (h.job_id == i)) [
  | inl t ↦ rw t (rw t at k.0, beaten_runners i now db rs k.1)
  | inr t ↦ rw t (rw t at k.0, beaten_runners i now db rs k.1)
]

-- The other runners are not of the job.
pub others : (i : ℕ) (rs : List Runner) → All (λ h. h.job_id ≢ i) (stop_runner i rs)
others i [] = tt
others i (h ∷ rs) = elim (Bool-cases (h.job_id == i)) [
  | inl t ↦ rw t (others i rs)
  | inr t ↦ rw t ((λ e. ground (arith, t, e)), others i rs)
]

pub stopped-IsHeld :
    (jobs : List Job) (i : ℕ) (rs : List Runner)
    → All (IsHeld jobs) rs
    → All (IsHeld jobs) (stop_runner i rs)
stopped-IsHeld jobs i rs k =
    All-select (IsHeld jobs) (IsHeld jobs) (λ h. not (h.job_id == i)) rs (λ h t x. x) k

-- A job that waits is no runner's.
pub waiting_apart :
    (k : Job) (db : Db) (rs : List Runner)
    → UniqueIds db.jobs
    → Has k db.jobs
    → k.status ≡ pending
    → All (IsHeld db.jobs) rs
    → All (λ h. k.id ≢ h.job_id) rs
waiting_apart k db [] u m w a = tt
waiting_apart k db (h ∷ rs) u m w a = (
  λ e.
      let q : k ≡ beaten h.beat a.0.row =
        eq_of_key id_of db.jobs k (beaten h.beat a.0.row) u m a.0.stored (e ∙ sym a.0.same) in
      let p : pending ≡ running = sym w ∙ ap (λ (j : Job). j.status) q ∙ a.0.runs in cc,
  waiting_apart k db rs u m w a.1,
)

-- A job that is held has not ended, so the report of its failure keeps the protocol.
pub fail-Allowed :
    (h : Runner) (exit_code now : ℕ) (jobs : List Job)
    → UniqueIds jobs
    → IsHeld jobs h
    → Allowed jobs (fail h.job_id exit_code now)
fail-Allowed h exit_code now jobs u k j m e =
    let q : j ≡ beaten h.beat k.row =
      eq_of_key id_of jobs j (beaten h.beat k.row) u m k.stored (e ∙ sym k.same) in
    let r : j.status ≡ running = ap (λ (x : Job). x.status) q ∙ k.runs in rw r refl

-- A call that is no heartbeat, and in time for the runners.
pub quiet-IsExclusive :
    (c : QueueCall) (db : Db) (rs : List Runner)
    → ((h : Runner) → moved c h ≡ h)
    → Allowed db.jobs c
    → All (λ h. IsInTime h.job_id h.beat c) rs
    → UniqueKeys job_of rs
    → All (IsHeld db.jobs) rs
    → IsSound db.jobs
    → IsExclusive (record { db = call c db; runners = rs })
quiet-IsExclusive c db rs q ok t a k s = record {
  apart = a;
  held =
      All-imp (λ h. IsHeld (call c db).jobs (moved c h)) (IsHeld (call c db).jobs) rs
        (λ h x. subst (IsHeld (call c db).jobs) (q h) x) (calls-IsHeld c db rs s.unique t k);
  sound = call-IsSound c db ok s;
}

pub report-IsExclusive :
    (i exit_code now : ℕ) (db : Db) (rs : List Runner)
    → Allowed db.jobs (fail i exit_code now)
    → UniqueKeys job_of rs
    → All (IsHeld db.jobs) rs
    → IsSound db.jobs
    → IsExclusive (record { db = report (some i) exit_code now db; runners = stop_runner i rs })
unfolding call
report-IsExclusive i exit_code now db rs ok a k s =
    let a' = select-UniqueKeys job_of (λ h. not (h.job_id == i)) rs a in
    let k' = stopped-IsHeld db.jobs i rs k in
    elim (Bool-cases (exit_code == 0)) [
      | inl t ↦ rw t (
          quiet-IsExclusive (complete i exit_code now) db (stop_runner i rs) (λ h. refl) tt
            (others i rs) a' k' s)
      | inr t ↦ rw t (
          quiet-IsExclusive (fail i exit_code now) db (stop_runner i rs) (λ h. refl) ok
            (others i rs) a' k' s)
    ]
