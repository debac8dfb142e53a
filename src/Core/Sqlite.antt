-- ===== src/Core/Sqlite.antt =====
-- backend/core/src/lib/sqlite-store.ts: the three tables as lists of rows, each statement as the
-- function on the tables that its SQL text says, each method as the code composes the statements.
-- A payload column holds the JSON text of an `EventPayload`; the model holds the payload itself.
pub mod Rows
pub mod Methods
pub mod Lookup
pub mod Lww
pub mod Convergence
pub mod Keyed
pub mod Seq
pub mod Pull
pub mod Catchup
pub mod Ascending
pub mod Challenges
pub mod Pruning
