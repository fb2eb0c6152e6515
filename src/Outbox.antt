-- ===== src/Outbox.antt =====
-- `src/queue/webhook-queue.service.ts`: the outbox of notifications, in the table `webhooks_outbox`
-- (`src/database/entities/webhook-outbox.entity.ts`).
mod Operations
mod Process
mod Calls
pub mod Claiming
pub mod Rows
pub mod Limits
pub mod Driver
unfoldable pub use Operations.*
unfoldable pub use Process.*
unfoldable pub use Calls.*
