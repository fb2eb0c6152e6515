-- ===== src/Dashboard.antt =====
-- `src/api/dashboard/dashboard.service.ts`, and the view `pipeline_stats` of
-- `src/database/database-seed.service.ts`.
mod Stats
mod DeploymentLocks
pub mod Counts
unfoldable pub use Stats.*
unfoldable pub use DeploymentLocks.*
