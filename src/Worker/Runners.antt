-- ===== src/Worker/Runners.antt =====
-- No two workers run one job, and none runs a job before its turn.
use postgres_pipeline_orches.Common.Text.{Text}
use postgres_pipeline_orches.Worker.Fleet.{Fleet}
