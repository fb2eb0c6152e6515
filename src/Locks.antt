-- ===== src/Locks.antt =====
-- `src/locks/deployment-lock.service.ts`: at most one deploy per environment at a time, by
-- PostgreSQL's advisory locks, with the table `deployment_locks` for display.
mod Defs
pub mod Pool
pub mod System
pub mod Grants
pub mod Exclusion
pub mod Records
unfoldable pub use Defs.*
