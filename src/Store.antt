-- ===== src/Store.antt =====
-- The database as the services see it: the live rows of each table (a soft-deleted row is left out),
-- the next free ids and the clock of the server. A transaction is a `Tx`: an error rolls it back.
mod Tables
pub mod Submissions
pub mod Sessions
pub mod Items
pub mod Keeps
pub use Tables.*
