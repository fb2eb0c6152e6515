-- ===== src/Tests/Deploys.antt =====
-- Two workers that deploy to production.
use postgres_pipeline_orches.Common.{
  ℕ, ◌≡◌, refl, subst, inl, inr, true, false, some, [], ◌∷◌, arith, Has,
}
use postgres_pipeline_orches.Common.Text.{Text, codes}
use postgres_pipeline_orches.Locks.{
  Locks, Queries, acquired, busy, threw, try_acquire, release, delete_rows, try_advisory_lock,
  upsert,
}
use postgres_pipeline_orches.Locks.System.{
  Holder, System, acquire, Reach, start, later, after_acquire,
}
use postgres_pipeline_orches.Locks.Exclusion.{one_deploy}
use postgres_pipeline_orches.Locks.Records.{no_failure, release-try_acquire, failed_insert_leaks}

-- A hash for the tests.
abbrev hash_of : Text → ℕ
hash_of [] = 0
hash_of (c ∷ cs) = c

abbrev env : Text
env = codes "production"

abbrev no_locks : Locks
no_locks = record { granted = []; table = []; out = [] }

abbrev idle : System
idle = record { locks = no_locks; holders = [] }

-- The first deploy starts, the second is turned away.
abbrev one_started : System
one_started = after_acquire hash_of no_failure 1 100 env (some 7) idle

abbrev other_refused : System
other_refused = after_acquire hash_of no_failure 2 110 env (some 8) one_started

outs : one_started.locks.out ≡ 1 ∷ []
unfolding try_acquire try_advisory_lock upsert
outs = refl

free_2 : ¬ Has 2 one_started.locks.out
free_2 m = elim (subst (λ o. Has 2 o) outs m) [ inl e ↦ ground arith | inr k ↦ absurd k ]

reached : Reach hash_of other_refused
reached =
    later (later start (acquire no_failure 1 100 env (some 7) (λ m. absurd m)))
      (acquire no_failure 2 110 env (some 8) free_2)

abbrev first_deploy : Holder
first_deploy = record { session = 1; environment = env }

still_there : Has first_deploy other_refused.holders
unfolding try_acquire try_advisory_lock upsert
still_there = inl refl

one_deploy_example : first_deploy ≡ first_deploy
one_deploy_example =
    one_deploy hash_of reached first_deploy first_deploy still_there still_there refl

release-try_acquire_example :
    let r = try_acquire hash_of no_failure 1 100 env (some 7) no_locks in
    (r.1 ≡ acquired)
    × (release hash_of no_failure 1 env r.0
        ≡ (record no_locks { table = delete_rows env [] }, true))
release-try_acquire_example =
    release-try_acquire hash_of 1 100 env (some 7) no_locks (λ m. absurd m) refl

abbrev no_insert : Queries
no_insert = record no_failure { record_row = false }

failed_insert_leaks_example :
    let r = try_acquire hash_of no_insert 1 100 env (some 7) no_locks in
    (r.1 ≡ threw)
    × (r.0.out ≡ no_locks.out)
    × (r.0.table ≡ no_locks.table)
    × ((try_acquire hash_of no_failure 2 110 env (some 8) r.0).1 ≡ busy)
failed_insert_leaks_example =
    failed_insert_leaks hash_of no_insert no_failure 1 2 100 110 env 7 (some 8) no_locks (λ h. h)
      refl refl refl (λ e. ground arith) refl
