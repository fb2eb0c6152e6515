-- ===== src/LoadTests.antt =====
-- `src/load-testing/scripts`: the load tests, as clients of a server.
mod Client
mod Scripts
mod Server
pub mod FirstJob
unfoldable pub use Client.*
unfoldable pub use Scripts.*
unfoldable pub use Server.*
