-- ===== src/JobQueue.antt =====
-- `src/queue/job-queue.service.ts`: the queue of jobs in the table `jobs`. `Order` and `Claim` are
-- the claim query, `Operations` the service's methods; the other children prove what they do.
mod Order
mod Claim
mod Operations
mod Calls
pub mod Least
pub mod Rows
pub mod RunStatus
pub mod Gate
pub mod Driver
pub mod Concurrent
pub mod Beating
pub mod Anomalies
pub mod Attempts
pub mod Protocol
pub mod RunHistory
pub mod Kept
pub mod Claiming
unfoldable pub use Order.*
unfoldable pub use Claim.*
unfoldable pub use Operations.*
unfoldable pub use Calls.*
