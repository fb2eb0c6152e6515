-- ===== src/Pipelines.antt =====
-- `src/api/pipelines`: the pipelines, and the answers of their controller.
mod Service
mod Controller
pub mod Seed
pub mod Seeded
unfoldable pub use Service.*
unfoldable pub use Controller.*
