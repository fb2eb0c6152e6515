-- ===== src/JobQueue/Order.antt =====
-- The claim query's order of jobs and its gate, `claimNextJob` of `src/queue/job-queue.service.ts`.
use postgres_pipeline_orches.Common.{
  Bool, not, ◌&&◌, ◌||◌, Option, none, some, List, [], ◌∷◌, ltb, ◌==◌, if◌then◌else◌, any,
}
use postgres_pipeline_orches.Common.Int.{ltb_ℤ, ◌==ℤ◌}
use postgres_pipeline_orches.Database.{Job, is_pending, is_terminal}

-- `(prev.stage_order, prev.step_order) < (j.stage_order, j.step_order)`
abbrev pub earlier : Job → Job → Bool
earlier a b =
    ltb a.stage_order b.stage_order
    || (a.stage_order == b.stage_order && ltb a.step_order b.step_order)

-- An unfinished job of the same run that comes earlier.
abbrev pub blocks : Job → Job → Bool
blocks prev j =
    prev.pipeline_run_id == j.pipeline_run_id && (earlier prev j && not (is_terminal prev.status))

-- The `WHERE` of the inner query.
unfoldable pub claimable : List Job → Job → Bool
claimable jobs j = is_pending j.status && not (any jobs (λ prev. blocks prev j))

-- `ORDER BY j.stage_order, j.step_order, j.priority DESC, j.created_at ASC`, as a strict order.
unfoldable pub before : Job → Job → Bool
before a b =
    earlier a b
    || ((a.stage_order == b.stage_order && a.step_order == b.step_order)
        && (ltb_ℤ b.priority a.priority
            || (a.priority ==ℤ b.priority && ltb a.created_at b.created_at)))

-- `ORDER BY … LIMIT 1`: a row that no other precedes, of equals the first in the table.
unfoldable pub least : List Job → Option Job
least [] = none
least (j ∷ js) = elim (least js) [ none ↦ some j | some k ↦ if before k j then some k else some j ]
