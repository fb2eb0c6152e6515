-- ===== src/Dashboard/Stats.antt =====
-- The statistics of pipelines: the materialized view, its refresh and its list.
use Prim.Native.Nat.{◌/◌}
use postgres_pipeline_orches.Common.Int.{ℤ, pos, negsuc}
use postgres_pipeline_orches.Common.{
  ℕ, zero, suc, ◌-◌, leb, ◌+◌, ◌*◌, Bool, true, false, ◌&&◌, ◌||◌, Option, none, some, List, [],
  ◌∷◌, ◌++◌, map, ltb, ◌==◌, if◌then◌else◌, select,
}
use postgres_pipeline_orches.Common.Sorting.{order_by}
use postgres_pipeline_orches.Common.Text.{Text}
use postgres_pipeline_orches.Database.{Status, success, PipelineRun, is_failed}
use postgres_pipeline_orches.Runs.{Pipeline, Store}

pub record PipelineStatsRow : Type 0 where
  pub pipeline_id : ℕ
  pub name : Text
  pub total_runs : ℕ
  pub success_count : ℕ
  pub failure_count : ℕ
  pub avg_duration_seconds : Option ℤ
  pub last_run_at : Option ℕ

abbrev pub thirty_days : ℕ
thirty_days = 30 * 86400 * 1000000

-- The rows of `pipelines p LEFT JOIN pipeline_runs pr ON pr.pipeline_id = p.id` for one pipeline:
-- its runs, or one row with no run.
abbrev pub or_no_run : List PipelineRun → List (Option PipelineRun)
or_no_run [] = none ∷ []
or_no_run (r ∷ rs) = map some (r ∷ rs)

unfoldable pub joined : Pipeline → List PipelineRun → List (Option PipelineRun)
joined p runs = or_no_run (select (λ r. r.pipeline_id == p.id) runs)

-- `WHERE pr.created_at > NOW() - INTERVAL '30 days' OR pr.id IS NULL`
abbrev pub is_recent : ℕ → Option PipelineRun → Bool
is_recent now none = true
is_recent now (some r) = ltb now (r.created_at + thirty_days)

abbrev pub is_success : Status → Bool
is_success success = true
is_success _ = false

-- `COUNT(…) FILTER (WHERE …)`, and `COUNT(pr.id)` at the test that every run passes.
unfoldable pub count_runs : (PipelineRun → Bool) → List (Option PipelineRun) → ℕ
count_runs q [] = 0
count_runs q (none ∷ rows) = count_runs q rows
count_runs q (some r ∷ rows) = (if q r then 1 else 0) + count_runs q rows

-- `MAX(pr.created_at)`
abbrev pub later : ℕ → Option ℕ → Option ℕ
later t none = some t
later t (some u) = if ltb u t then some t else some u

unfoldable pub last_run : List (Option PipelineRun) → Option ℕ
last_run [] = none
last_run (none ∷ rows) = last_run rows
last_run (some r ∷ rows) = later r.created_at (last_run rows)

-- The runs with `pr.started_at IS NOT NULL AND pr.completed_at IS NOT NULL`: their number, and the
-- sums of the two times.
pub record Durations : Type 0 where
  pub runs : ℕ
  pub completed : ℕ
  pub started : ℕ

abbrev pub add_duration : Option ℕ → Option ℕ → Durations → Durations
add_duration (some started) (some completed) d = record {
  runs = d.runs + 1;
  completed = d.completed + completed;
  started = d.started + started;
}
add_duration _ _ d = d

unfoldable pub durations : List (Option PipelineRun) → Durations
durations [] = record { runs = 0; completed = 0; started = 0 }
durations (none ∷ rows) = durations rows
durations (some r ∷ rows) = add_duration r.started_at r.completed_at (durations rows)

-- `ROUND` of `m / d`, and of its negative: halves go away from 0.
abbrev pub rounded : ℕ → ℕ → ℕ
rounded m d = (2 * m + d) / (2 * d)

abbrev pub negative : ℕ → ℤ
negative zero = pos 0
negative (suc n) = negsuc n

-- `ROUND(AVG(EXTRACT(EPOCH FROM (pr.completed_at - pr.started_at))))`
unfoldable pub avg_duration : List (Option PipelineRun) → Option ℤ
unfolding durations
avg_duration rows =
    let d = durations rows in
    let unit = d.runs * 1000000 in
    if d.runs == 0
    then none
    else if leb d.started d.completed
    then some (pos (rounded (d.completed - d.started) unit))
    else some (negative (rounded (d.started - d.completed) unit))

-- The group of a pipeline; a group with no row is no row of the view.
abbrev pub stats_of : Pipeline → List (Option PipelineRun) → List PipelineStatsRow
stats_of p [] = []
stats_of p (row ∷ rows) =
    record {
      pipeline_id = p.id;
      name = p.name;
      total_runs = count_runs (λ r. true) (row ∷ rows);
      success_count = count_runs (λ r. is_success r.status) (row ∷ rows);
      failure_count = count_runs (λ r. is_failed r.status) (row ∷ rows);
      avg_duration_seconds = avg_duration (row ∷ rows);
      last_run_at = last_run (row ∷ rows);
    }
    ∷ []

unfoldable pub pipeline_stats : ℕ → List PipelineRun → List Pipeline → List PipelineStatsRow
unfolding joined count_runs last_run avg_duration
pipeline_stats now runs [] = []
pipeline_stats now runs (p ∷ ps) =
    stats_of p (select (is_recent now) (joined p runs)) ++ pipeline_stats now runs ps

-- `refresh_pipeline_stats()`, and the plain REFRESH where it fails; `none` where both fail.
unfoldable pub refresh_pipeline_stats :
    (concurrently plain : Bool) → ℕ → Store → List PipelineStatsRow → Option (List PipelineStatsRow)
unfolding pipeline_stats
refresh_pipeline_stats concurrently plain now s view =
    if concurrently || plain then some (pipeline_stats now s.db.runs s.pipelines) else none

-- `last_run_at DESC NULLS LAST, name ASC`, by the database's order of names.
abbrev pub later_run : Option ℕ → Option ℕ → Bool
later_run none b = false
later_run (some a) none = true
later_run (some a) (some b) = ltb b a

abbrev pub same_run : Option ℕ → Option ℕ → Bool
same_run none none = true
same_run (some a) (some b) = a == b
same_run _ _ = false

abbrev pub stats_before : (Text → Text → Bool) → PipelineStatsRow → PipelineStatsRow → Bool
stats_before name_before a b =
    later_run a.last_run_at b.last_run_at
    || (same_run a.last_run_at b.last_run_at && name_before a.name b.name)

unfoldable pub list_pipeline_stats :
    (Text → Text → Bool) → List PipelineStatsRow → List PipelineStatsRow
list_pipeline_stats name_before view = order_by (stats_before name_before) view
