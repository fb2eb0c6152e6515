-- ===== src/Runs.antt =====
-- `src/api/runs/runs.service.ts`: a run of a pipeline and its jobs, with the parts of
-- `src/api/pipelines/pipelines.service.ts` that it calls.
mod Trigger
pub mod Queries
pub mod Listing
pub mod Order
pub mod Steps
pub mod Inserted
pub mod Stored
pub mod Started
unfoldable pub use Trigger.*
