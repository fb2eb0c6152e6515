-- ===== src/JobQueue/Rows.antt =====
-- The primary key of `jobs`.
use postgres_pipeline_orches.Common.{ℕ, Bool, List, ◌==◌}
use postgres_pipeline_orches.Common.Keys.{UniqueKeys}
use postgres_pipeline_orches.Database.{Job}

abbrev pub id_of : Job → ℕ
id_of j = j.id

abbrev pub UniqueIds : List Job → Type 0
UniqueIds = UniqueKeys id_of

abbrev pub has_id : ℕ → Job → Bool
has_id i j = j.id == i
