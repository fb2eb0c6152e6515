-- ===== src/Startup/Restarts.antt =====
-- What later starts leave of the work of the first.
use postgres_pipeline_orches.Common.{
  ℕ, ◌≡◌, ◌≢◌, refl, sym, ap, subst, ◌∙◌, inl, inr, Bool, true, false, not, ◌&&◌, Option, none,
  some, List, [], ◌∷◌, arith, Bool-cases, Option-cases,
}
use postgres_pipeline_orches.Common.Text.{Text}
use postgres_pipeline_orches.Pipelines.Seeded.{seed_full, seeded}
use postgres_pipeline_orches.Startup.Calls.{
  Schema, is_sync, Statements, seed, then_view, then_trigger, view_or_new,
  ensure_pipeline_stats_mat_view, ensure_sync_pipeline_run_status_trigger, init_database,
  ensure_notify_trigger, StartCall, database, log_stream, start_call, start_calls,
}

-- A schema to which a start adds nothing.
record IsSettled (s : Schema) : Type 0 where
  filled : s.store.pipelines ≢ []
  viewed : s.view ≢ none
  functions : s.refresh_function ≡ true
  synced : s.run_trigger ≡ true
  notified : s.log_trigger ≡ true

pub seed-store :
    (q : Statements) (ids times : ℕ → ℕ) (s : Schema)
    → s.store.pipelines ≢ []
    → (seed q ids times s).0 ≡ s
seed-store q ids times s n =
    rw (seed_full q.saves ids times s.store.pipelines s.store refl n) (ground arith)

settled-view : (now : ℕ) (s : Schema) → s.view ≢ none → some (view_or_new now s) ≡ s.view
settled-view now s v = elim (Option-cases s.view) [
  | inl e ↦ absurd (v e)
  | inr (rows, e) ↦ rw e refl
]

settled-then_trigger :
    (q : Statements) (r : Schema × Bool) → r.0.run_trigger ≡ true → (then_trigger q r).0 ≡ r.0
unfolding ensure_sync_pipeline_run_status_trigger
settled-then_trigger q (s, false) h = refl
settled-then_trigger q (s, true) h = elim (Bool-cases q.trigger_made) [
  | inl t ↦ rw t (ap (λ b. record s { run_trigger = b }) (sym h))
  | inr t ↦ rw t refl
]

settled-view_made :
    (made : Bool) (now : ℕ) (s : Schema)
    → IsSettled s
    → (ensure_pipeline_stats_mat_view made now s).0 ≡ s
unfolding ensure_pipeline_stats_mat_view
settled-view_made made now s h = elim (Bool-cases made) [
  | inl t ↦
      rw (t, settled-view now s h.viewed)
        (ap (λ b. record s { refresh_function = b }) (sym h.functions))
  | inr t ↦ rw t refl
]

settled-then_view :
    (q : Statements) (now : ℕ) (r : Schema × Bool) → IsSettled r.0 → (then_view q now r).0 ≡ r.0
settled-then_view q now (s, false) h = refl
settled-then_view q now (s, true) h =
    let e = settled-view_made q.view_made now s h in
    let r = ensure_pipeline_stats_mat_view q.view_made now s in
    settled-then_trigger q r (ap (λ (x : Schema). x.run_trigger) e ∙ h.synced) ∙ e

settled-call : (c : StartCall) (s : Schema) → IsSettled s → (start_call c s).0 ≡ s
unfolding start_call init_database ensure_notify_trigger
settled-call (database env q ids times now) s h = elim (Bool-cases (is_sync env)) [
  | inl t ↦
      let e = seed-store q ids times s h.filled in
      rw t (settled-then_view q now (seed q ids times s) (subst IsSettled (sym e) h) ∙ e)
  | inr t ↦ rw t refl
]
settled-call (log_stream env locked made) s h = elim (Bool-cases (not (is_sync env))) [
  | inl t ↦ rw t refl
  | inr t ↦ elim (Bool-cases (locked && made)) [
    | inl u ↦ rw (t, u) (ap (λ b. record s { log_trigger = b }) (sym h.notified))
    | inr u ↦ rw (t, u) refl
  ]
]

settled-calls : (cs : List StartCall) (s : Schema) → IsSettled s → start_calls cs s ≡ s
unfolding start_calls
settled-calls [] s h = refl
settled-calls (c ∷ cs) s h =
    let e = settled-call c s h in
    settled-calls cs (start_call c s).0 (subst IsSettled (sym e) h) ∙ e

-- What a start of the seed leaves that went through.
record IsBuilt (s : Schema) : Type 0 where
  filled : s.store.pipelines ≢ []
  viewed : s.view ≢ none
  functions : s.refresh_function ≡ true
  synced : s.run_trigger ≡ true

built :
    (q : Statements) (now : ℕ) (r : Schema × Bool)
    → (r.1 ≡ true → r.0.store.pipelines ≢ [])
    → (then_view q now r).1 ≡ true
    → IsBuilt (then_view q now r).0
unfolding ensure_pipeline_stats_mat_view ensure_sync_pipeline_run_status_trigger
built q now (s, false) n t = (let f : false ≡ true = t in cc)
built q now (s, true) n t = elim (Bool-cases q.view_made) [
  | inl a ↦ elim (Bool-cases q.trigger_made) [
    | inl b ↦
        rw (a, b) (record { filled = n refl; viewed = λ e. cc; functions = refl; synced = refl })
    | inr b ↦ (let f : false ≡ true = rw (a, b) at t in cc)
  ]
  | inr a ↦ (let f : false ≡ true = rw a at t in cc)
]

seed-filled :
    (q : Statements) (ids times : ℕ → ℕ) (s : Schema)
    → (seed q ids times s).1 ≡ true
    → (seed q ids times s).0.store.pipelines ≢ []
seed-filled q ids times s t = elim (Bool-cases q.counted) [
  | inl a ↦ rw a (seeded ids times q.saves s.store.pipelines s.store refl (rw a at t))
  | inr a ↦ (let f : false ≡ true = rw a at t in cc)
]

init_database-IsBuilt :
    (env : Option Text) (q : Statements) (ids times : ℕ → ℕ) (now : ℕ) (s : Schema)
    → is_sync env ≡ true
    → (init_database env q ids times now s).1 ≡ true
    → IsBuilt (init_database env q ids times now s).0
unfolding init_database
init_database-IsBuilt env q ids times now s e t =
    rw e (built q now (seed q ids times s) (seed-filled q ids times s) (rw e at t))

notify_trigger-IsSettled :
    (env : Option Text) (locked made : Bool) (s : Schema)
    → is_sync env ≡ true
    → (ensure_notify_trigger env locked made s).1 ≡ true
    → IsBuilt s
    → IsSettled (ensure_notify_trigger env locked made s).0
unfolding ensure_notify_trigger
notify_trigger-IsSettled env locked made s e t b = elim (Bool-cases (locked && made)) [
  | inl u ↦
      rw (e, u)
        (record {
          filled = b.filled;
          viewed = b.viewed;
          functions = b.functions;
          synced = b.synced;
          notified = refl;
        })
  | inr u ↦ (let f : false ≡ true = rw (e, u) at t in cc)
]

-- Where SYNC_DATABASE is 'true', and the start of the seed and then that of the log stream go through:
-- no later start of any process changes the tables, the rows of the view, the functions or the
-- triggers, whatever its environment and whichever of its statements fail.
pub starts_settle :
    (env env' : Option Text) (q : Statements) (ids times : ℕ → ℕ) (now : ℕ) (locked made : Bool)
    (cs : List StartCall) (s : Schema)
    → let (a, seeded) = start_call (database env q ids times now) s in
      let (b, told) = start_call (log_stream env' locked made) a in
      is_sync env ≡ true → is_sync env' ≡ true → seeded ≡ true → told ≡ true → start_calls cs b ≡ b
unfolding start_call
starts_settle env env' q ids times now locked made cs s e e' t u =
    let a = init_database env q ids times now s in
    settled-calls cs (ensure_notify_trigger env' locked made a.0).0 (
      notify_trigger-IsSettled env' locked made a.0 e' u
        (init_database-IsBuilt env q ids times now s e t))
