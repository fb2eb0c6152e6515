-- ===== src/Database.antt =====
-- The PostgreSQL database as the services see it: the tables of `src/database/entities`, and the
-- trigger that `database-seed.service.ts` installs on `jobs`. A table is the list of its rows. A
-- uuid is a number, and a timestamp counts microseconds. What PostgreSQL chooses (a fresh uuid, the
-- value of NOW()) is an argument of the operation that uses it.
mod Entities
mod Trigger
mod Driver
pub mod Synced
pub use Entities.*
unfoldable pub use Trigger.*
pub use Driver.*
