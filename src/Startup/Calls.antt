-- ===== src/Startup/Calls.antt =====
-- `onModuleInit` of `src/database/database-seed.service.ts`, and the part of that of
-- `src/streaming/log-stream.service.ts` that installs its trigger. Whether a statement goes through is
-- an argument; one that does not throws, and changes nothing. A text of several statements is one
-- transaction, as PostgreSQL runs it.
use postgres_pipeline_orches.Common.{
  ℕ, Bool, true, false, not, ◌&&◌, Option, none, some, List, [], ◌∷◌, if◌then◌else◌,
}
use postgres_pipeline_orches.Common.Text.{Text, codes, text_eq}
use postgres_pipeline_orches.Runs.{Store}
use postgres_pipeline_orches.Pipelines.Seed.{seed_pipelines_if_empty}
use postgres_pipeline_orches.Dashboard.{PipelineStatsRow, pipeline_stats}

-- The tables, and what the starts put beside them: the materialized view, and whether the functions
-- and triggers are there.
pub record Schema : Type 0 where
  pub store : Store
  pub view : Option (List PipelineStatsRow)
  pub refresh_function : Bool
  pub run_trigger : Bool
  pub log_trigger : Bool

-- `process.env.SYNC_DATABASE === 'true'`
abbrev pub is_sync : Option Text → Bool
is_sync none = false
is_sync (some value) = text_eq value (codes "true")

-- Which statements go through: the count of the pipelines, the `save` of the row at each place of the
-- seed, the text of the view, and that of the trigger.
pub record Statements : Type 0 where
  pub counted : Bool
  pub saves : ℕ → Bool
  pub view_made : Bool
  pub trigger_made : Bool

-- The view is made from the tables of the moment, unless there is one.
abbrev pub view_or_new : ℕ → Schema → List PipelineStatsRow
view_or_new now s = elim s.view [
  | none ↦ pipeline_stats now s.store.db.runs s.store.pipelines
  | some rows ↦ rows
]

unfoldable pub ensure_pipeline_stats_mat_view : Bool → ℕ → Schema → Schema × Bool
unfolding pipeline_stats
ensure_pipeline_stats_mat_view made now s =
    if made
    then (record s { view = some (view_or_new now s); refresh_function = true }, true)
    else (s, false)

unfoldable pub ensure_sync_pipeline_run_status_trigger : Bool → Schema → Schema × Bool
ensure_sync_pipeline_run_status_trigger made s =
    if made then (record s { run_trigger = true }, true) else (s, false)

-- `onModuleInit` of the seed; where a call throws, those behind it are not made.
abbrev pub then_trigger : Statements → Schema × Bool → Schema × Bool
then_trigger q (s, false) = (s, false)
then_trigger q (s, true) = ensure_sync_pipeline_run_status_trigger q.trigger_made s

abbrev pub then_view : Statements → ℕ → Schema × Bool → Schema × Bool
then_view q now (s, false) = (s, false)
then_view q now (s, true) = then_trigger q (ensure_pipeline_stats_mat_view q.view_made now s)

abbrev pub seed : Statements → (ids times : ℕ → ℕ) → Schema → Schema × Bool
seed q ids times s =
    let (store, seeded) = seed_pipelines_if_empty q.saves ids times s.store in
    if q.counted then (record s { store = store }, seeded) else (s, false)

unfoldable pub init_database :
    Option Text → Statements → (ids times : ℕ → ℕ) → ℕ → Schema → Schema × Bool
unfolding seed_pipelines_if_empty ensure_pipeline_stats_mat_view
    ensure_sync_pipeline_run_status_trigger
init_database env q ids times now s =
    if is_sync env then then_view q now (seed q ids times s) else (s, true)

-- `ensureNotifyTrigger`: the advisory lock, then the trigger.
unfoldable pub ensure_notify_trigger : Option Text → (locked made : Bool) → Schema → Schema × Bool
ensure_notify_trigger env locked made s =
    if not (is_sync env)
    then (s, true)
    else if locked && made
    then (record s { log_trigger = true }, true)
    else (s, false)

-- The starts of all the processes, in their order.
pub data StartCall : Type 0 where
  database : (env : Option Text) (q : Statements) (ids times : ℕ → ℕ) (now : ℕ) → StartCall
  log_stream : (env : Option Text) (locked made : Bool) → StartCall

unfoldable pub start_call : StartCall → Schema → Schema × Bool
unfolding init_database ensure_notify_trigger
start_call (database env q ids times now) s = init_database env q ids times now s
start_call (log_stream env locked made) s = ensure_notify_trigger env locked made s

unfoldable pub start_calls : List StartCall → Schema → Schema
start_calls [] s = s
start_calls (c ∷ cs) s = start_calls cs (start_call c s).0
