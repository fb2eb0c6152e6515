-- ===== src/Locks/Defs.antt =====
-- `DeploymentLockService`. A session is a connection of the pool; `hashtext` is PostgreSQL's.
use postgres_pipeline_orches.Common.{
  ℕ, Bool, true, false, not, ◌&&◌, Option, none, some, List, [], ◌∷◌, ◌++◌, ◌==◌, if◌then◌else◌,
  any, select,
}
use postgres_pipeline_orches.Common.Text.{Text, codes, text_eq}

-- `src/database/entities/deployment-lock.entity.ts`
pub record DeploymentLock : Type 0 where
  pub environment : Text
  pub locked_by : Option ℕ
  pub locked_at : ℕ
  pub expires_at : Option ℕ

-- An advisory lock that a session holds. A session may hold one several times.
pub record Grant : Type 0 where
  pub key : ℕ
  pub session : ℕ

-- The advisory locks and the table of the database, and the connections that are checked out.
pub record Locks : Type 0 where
  pub granted : List Grant
  pub table : List DeploymentLock
  pub out : List ℕ

-- Which of the four queries go through; one that does not throws and changes nothing.
pub record Queries : Type 0 where
  pub try_lock : Bool
  pub record_row : Bool
  pub delete_row : Bool
  pub unlock : Bool

-- Held by another session.
abbrev pub conflicts : ℕ → ℕ → Grant → Bool
conflicts key session g = g.key == key && not (g.session == session)

-- `pg_try_advisory_lock`
unfoldable pub try_advisory_lock : ℕ → ℕ → List Grant → List Grant × Bool
try_advisory_lock key session granted =
    if any granted (conflicts key session)
    then (granted, false)
    else (record { key = key; session = session } ∷ granted, true)

abbrev pub is_grant : ℕ → ℕ → Grant → Bool
is_grant key session g = g.key == key && g.session == session

-- `pg_advisory_unlock`: the session gives the lock back once.
unfoldable pub advisory_unlock : ℕ → ℕ → List Grant → List Grant
advisory_unlock key session [] = []
advisory_unlock key session (g ∷ gs) =
    if is_grant key session g then gs else g ∷ advisory_unlock key session gs

-- `INSERT … ON CONFLICT (environment) DO UPDATE`
unfoldable pub upsert : DeploymentLock → List DeploymentLock → List DeploymentLock
upsert l [] = l ∷ []
upsert l (r ∷ rs) = if text_eq r.environment l.environment then l ∷ rs else r ∷ upsert l rs

-- `DELETE FROM deployment_locks WHERE environment = $1`
abbrev pub delete_rows : Text → List DeploymentLock → List DeploymentLock
delete_rows environment = select (λ r. not (text_eq r.environment environment))

-- `client.release()`
abbrev pub check_in : ℕ → List ℕ → List ℕ
check_in session = select (λ s. not (s == session))

abbrev pub lock_prefix : Text
lock_prefix = codes "deploy:"

-- How `tryAcquire` ends. The `release` of an acquired lock is `release` below, at this session.
pub data AcquireResult : Type 0 where
  acquired : AcquireResult
  busy : AcquireResult
  threw : AcquireResult

module _ (hashtext : Text → ℕ) where
  abbrev pub key_of : Text → ℕ
  key_of environment = hashtext (lock_prefix ++ environment)

  -- The part of `tryAcquire` behind a lock that was acquired: the row, if a run is given.
  abbrev pub record_lock : Queries → ℕ → ℕ → Text → Option ℕ → Locks → Locks × AcquireResult
  record_lock q session now environment none db = (db, acquired)
  record_lock q session now environment (some run) db =
      let l : DeploymentLock = record {
        environment = environment;
        locked_by = some run;
        locked_at = now;
        expires_at = none;
      } in
      if q.record_row
      then (record db { table = upsert l db.table }, acquired)
      else (record db { out = check_in session db.out }, threw)

  -- `session` is the connection that `pool.connect()` gives.
  unfoldable pub try_acquire : Queries → ℕ → ℕ → Text → Option ℕ → Locks → Locks × AcquireResult
  unfolding try_advisory_lock upsert
  try_acquire q session now environment pipeline_run_id db =
      let (granted, got) = try_advisory_lock (key_of environment) session db.granted in
      let held = record db { granted = granted; out = session ∷ db.out } in
      if not q.try_lock
      then (record db { out = check_in session (session ∷ db.out) }, threw)
      else if not got
      then (record held { out = check_in session held.out }, busy)
      else record_lock q session now environment pipeline_run_id held

  -- The `release` of an acquired lock, and whether it ends without throwing.
  unfoldable pub release : Queries → ℕ → Text → Locks → Locks × Bool
  unfolding advisory_unlock
  release q session environment db =
      let deleted = record db { table = delete_rows environment db.table } in
      let unlocked = record deleted {
        granted = advisory_unlock (key_of environment) session db.granted;
      } in
      let back = λ (d : Locks). record d { out = check_in session d.out } in
      if not q.delete_row
      then (back db, false)
      else if not q.unlock
      then (back deleted, false)
      else (back unlocked, true)
