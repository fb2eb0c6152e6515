-- ===== src/Locks/System.antt =====
-- The deploys of all the workers as one system of steps (`src/locks/deployment-lock.service.ts`).
use postgres_pipeline_orches.Common.{ℕ, not, Option, List, [], ◌∷◌, ◌==◌, Has, select}
use postgres_pipeline_orches.Common.Text.{Text}
use postgres_pipeline_orches.Locks.{Locks, Queries, AcquireResult, acquired, try_acquire, release}

-- A deploy under way: it was told that it has the lock, and has not released it.
pub record Holder : Type 0 where
  pub session : ℕ
  pub environment : Text

-- The locks, and the deploys under way in all the workers.
pub record System : Type 0 where
  pub locks : Locks
  pub holders : List Holder

abbrev pub start_deploy : AcquireResult → Holder → List Holder → List Holder
start_deploy acquired h hs = h ∷ hs
start_deploy _ h hs = hs

abbrev pub end_deploy : ℕ → List Holder → List Holder
end_deploy session = select (λ h. not (h.session == session))

module _ (hashtext : Text → ℕ) where
  abbrev pub after_acquire : Queries → ℕ → ℕ → Text → Option ℕ → System → System
  after_acquire q session now environment run s =
      let r = try_acquire hashtext q session now environment run s.locks in
      record {
        locks = r.0;
        holders =
            start_deploy r.1 (record { session = session; environment = environment }) s.holders;
      }

  abbrev pub after_finish : Queries → Holder → System → System
  after_finish q h s = record {
    locks = (release hashtext q h.session h.environment s.locks).0;
    holders = end_deploy h.session s.holders;
  }

  -- A call of `tryAcquire` gets a connection that is not checked out. A deploy under way may call its
  -- `release` at any time.
  pub data Step (s : System) : System → Type 0 where
    acquire :
        (q : Queries) (session now : ℕ) (environment : Text) (run : Option ℕ)
        → ¬ Has session s.locks.out
        → Step s (after_acquire q session now environment run s)
    finish : (q : Queries) (h : Holder) → Has h s.holders → Step s (after_finish q h s)

  pub data Reach : System → Type 0 where
    start : Reach (record { locks = record { granted = []; table = []; out = [] }; holders = [] })
    later : {s t : System} → Reach s → Step s t → Reach t
