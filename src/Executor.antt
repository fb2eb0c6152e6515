-- ===== src/Executor.antt =====
-- `src/worker/job-executor.service.ts`: the shell command of a job, its log lines, and the deploy
-- lock around it.
mod LineBuffer
mod Environment
mod Execute
pub mod Lines
pub mod Resources
pub mod Streams
pub mod Success
unfoldable pub use LineBuffer.*
unfoldable pub use Environment.*
unfoldable pub use Execute.*
