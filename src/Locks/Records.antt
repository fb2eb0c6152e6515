-- ===== src/Locks/Records.antt =====
-- One deploy from `tryAcquire` to `release`, and the lock that a failing INSERT leaves behind.
use postgres_pipeline_orches.Common.{
  ℕ, ◌≡◌, refl, inl, inr, ◌≢◌, true, false, Option, none, some, List, [], ◌∷◌, arith, Has, any,
}
use postgres_pipeline_orches.Common.Text.{Text, text_eq_refl}
use postgres_pipeline_orches.Locks.{
  DeploymentLock, Locks, Queries, acquired, busy, threw, key_of, conflicts, upsert, delete_rows,
  try_acquire, release, check_in,
}

-- Every query goes through.
abbrev pub no_failure : Queries
no_failure = record { try_lock = true; record_row = true; delete_row = true; unlock = true }

delete_rows-upsert :
    (l : DeploymentLock) (rows : List DeploymentLock)
    → delete_rows l.environment (upsert l rows) ≡ delete_rows l.environment rows
unfolding upsert
delete_rows-upsert l [] = ground (arith, text_eq_refl l.environment)
delete_rows-upsert l (r ∷ rows) =
    ground (arith, text_eq_refl l.environment, delete_rows-upsert l rows)

check_in-out : (session : ℕ) (out : List ℕ) → ¬ Has session out → check_in session out ≡ out
check_in-out session [] n = refl
check_in-out session (x ∷ out) n =
    let m : x ≢ session = λ e. n (inl e) in
    ground (arith, check_in-out session out (λ k. n (inr k)))

module _ (hashtext : Text → ℕ) where
  -- With no failing query, a deploy that acquires its lock on a free connection and releases it leaves
  -- the advisory locks and the connections as they were, and no row of its environment; the rows of
  -- the others stay.
  pub release-try_acquire :
      (session now : ℕ) (environment : Text) (run : Option ℕ) (db : Locks)
      → ¬ Has session db.out
      → any db.granted (conflicts (key_of hashtext environment) session) ≡ false
      → let r = try_acquire hashtext no_failure session now environment run db in
        (r.1 ≡ acquired)
        × (release hashtext no_failure session environment r.0
            ≡ (record db { table = delete_rows environment db.table }, true))
  unfolding try_acquire release
  release-try_acquire session now environment none db n free =
      (ground arith, ground (arith, check_in-out session db.out n))
  release-try_acquire session now environment (some run) db n free = (
    ground arith,
    ground (
      arith,
      check_in-out session db.out n,
      delete_rows-upsert
          (record {
            environment = environment;
            locked_by = some run;
            locked_at = now;
            expires_at = none;
          })
          db.table,
    ),
  )

  -- On a free connection: if the INSERT into `deployment_locks` fails once the lock is acquired,
  -- `tryAcquire` throws and gives the connection back to the pool, and the table is as it was, but the
  -- lock stays: no other connection gets it, for any run.
  pub failed_insert_leaks :
      (q q' : Queries) (session session' now now' : ℕ) (environment : Text) (run : ℕ)
      (run' : Option ℕ) (db : Locks)
      → ¬ Has session db.out
      → q.try_lock ≡ true
      → q.record_row ≡ false
      → any db.granted (conflicts (key_of hashtext environment) session) ≡ false
      → session' ≢ session
      → q'.try_lock ≡ true
      → let r = try_acquire hashtext q session now environment (some run) db in
        (r.1 ≡ threw)
        × (r.0.out ≡ db.out)
        × (r.0.table ≡ db.table)
        × ((try_acquire hashtext q' session' now' environment run' r.0).1 ≡ busy)
  unfolding try_acquire
  failed_insert_leaks q q' session session' now now' environment run run' db n t f free ne t' =
      (ground arith, ground (arith, check_in-out session db.out n), ground arith, ground arith)
