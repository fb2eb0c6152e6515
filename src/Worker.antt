-- ===== src/Worker.antt =====
-- `src/worker/worker.service.ts`: the loop of a worker, with the claims of
-- `src/worker/job-claimer.service.ts`.
mod Turn
pub mod Heartbeat
pub mod Timers
pub mod Claimer
pub mod Fleet
pub mod Held
pub mod Runners
pub mod History
pub mod Stalled
unfoldable pub use Turn.*
