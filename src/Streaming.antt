-- ===== src/Streaming.antt =====
-- `src/streaming/log-stream.service.ts`: log lines stored in `job_logs`, sent on by a trigger with
-- NOTIFY, and handed to the streams that clients watch (`src/streaming/sse.controller.ts`).
mod Logs
mod Service
pub mod Payload
pub mod Delivery
pub mod Listening
unfoldable pub use Logs.*
unfoldable pub use Service.*
