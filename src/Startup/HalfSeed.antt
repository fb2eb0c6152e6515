-- ===== src/Startup/HalfSeed.antt =====
-- A start whose seed breaks off, and the starts behind it.
use postgres_pipeline_orches.Common.{
  ℕ, ◌<◌, ◌≡◌, ◌≢◌, refl, sym, ap, subst, ◌∙◌, inl, inr, Bool, true, false, ◌&&◌, Option, List, [],
  ◌∷◌, arith, length, Bool-cases,
}
use postgres_pipeline_orches.Common.Text.{Text}
use postgres_pipeline_orches.Runs.{Store}
use postgres_pipeline_orches.Pipelines.{create}
use postgres_pipeline_orches.Pipelines.Seed.{pipeline_seed, seed_rows, seed_pipelines_if_empty}
use postgres_pipeline_orches.Startup.Restarts.{seed-store}
use postgres_pipeline_orches.Startup.Calls.{
  Schema, is_sync, Statements, seed, then_view, ensure_pipeline_stats_mat_view,
  ensure_sync_pipeline_run_status_trigger, init_database, ensure_notify_trigger, StartCall,
  database, log_stream, start_call, start_calls,
}

view-store :
    (q : Statements) (now : ℕ) (r : Schema × Bool) → (then_view q now r).0.store ≡ r.0.store
unfolding ensure_pipeline_stats_mat_view ensure_sync_pipeline_run_status_trigger
view-store q now (s, false) = refl
view-store q now (s, true) = ground arith

-- No start changes the tables, once there is a pipeline.
call-store :
    (c : StartCall) (s : Schema) → s.store.pipelines ≢ [] → (start_call c s).0.store ≡ s.store
unfolding start_call init_database ensure_notify_trigger
call-store (database env q ids times now) s n = elim (Bool-cases (is_sync env)) [
  | inl t ↦ rw t (
      view-store q now (seed q ids times s)
      ∙ ap (λ (x : Schema). x.store) (seed-store q ids times s n))
  | inr t ↦ rw t refl
]
call-store (log_stream env locked made) s n = ground arith

calls-store :
    (cs : List StartCall) (s : Schema) → s.store.pipelines ≢ [] → (start_calls cs s).store ≡ s.store
unfolding start_calls
calls-store [] s n = refl
calls-store (c ∷ cs) s n =
    let e = call-store c s n in
    calls-store cs (start_call c s).0 (subst (λ (t : Store). t.pipelines ≢ []) (sym e) n) ∙ e

stopped :
    (q : Statements) (now : ℕ) (r : Schema × Bool) → r.1 ≡ false → then_view q now r ≡ (r.0, false)
stopped q now (s, false) h = refl
stopped q now (s, true) h = (let f : true ≡ false = h in cc)

abbrev IsHalf : Schema × Bool → Type 0
IsHalf r =
    (r.1 ≡ false) × (r.0.store.pipelines ≢ []) × (length r.0.store.pipelines < length pipeline_seed)

seed-IsHalf :
    (q : Statements) (ids times : ℕ → ℕ) (s : Schema)
    → q.counted ≡ true
    → s.store.pipelines ≡ []
    → q.saves 0 ≡ true
    → (q.saves 1 && q.saves 2) ≡ false
    → IsHalf (seed q ids times s)
unfolding seed_pipelines_if_empty seed_rows create
seed-IsHalf q ids times s c n one rest = elim (Bool-cases (q.saves 1)) [
  | inl a ↦
      let b : q.saves 2 ≡ false = rw a at rest in
      rw (c, n, one, a, b) (refl, (λ e. cc), omega arith)
  | inr a ↦ rw (c, n, one, a) (refl, (λ e. cc), omega arith)
]

init-IsHalf :
    (env : Option Text) (q : Statements) (ids times : ℕ → ℕ) (now : ℕ) (s : Schema)
    → is_sync env ≡ true
    → IsHalf (seed q ids times s)
    → IsHalf (init_database env q ids times now s)
unfolding init_database
init-IsHalf env q ids times now s e h =
    let (failed, filled, few) = h in
    rw e (subst IsHalf (sym (stopped q now (seed q ids times s) failed)) (refl, filled, few))

-- From a table with no pipeline, where the first row of the seed is saved and a later one is not: the
-- start is an error, and after any later starts the table has fewer pipelines than the seed, those of
-- that start.
pub half_seed_stays :
    (env : Option Text) (q : Statements) (ids times : ℕ → ℕ) (now : ℕ) (cs : List StartCall)
    (s : Schema)
    → is_sync env ≡ true
    → q.counted ≡ true
    → s.store.pipelines ≡ []
    → q.saves 0 ≡ true
    → (q.saves 1 && q.saves 2) ≡ false
    → let (a, done) = start_call (database env q ids times now) s in
      (done ≡ false)
      × ((start_calls cs a).store ≡ a.store)
      × (length a.store.pipelines < length pipeline_seed)
unfolding start_call
half_seed_stays env q ids times now cs s e c n one rest =
    let h = init-IsHalf env q ids times now s e (seed-IsHalf q ids times s c n one rest) in
    let (failed, filled, few) = h in
    (failed, calls-store cs (init_database env q ids times now s).0 filled, few)
