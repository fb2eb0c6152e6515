-- ===== src/Startup.antt =====
-- The starts of the processes: what the services do to the database when their modules begin.
mod Calls
pub mod Restarts
pub mod HalfSeed
unfoldable pub use Calls.*
