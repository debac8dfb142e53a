-- ===== src/Web.antt =====
-- The web client, apps/web/src.
pub mod Tasks
pub mod Wire
pub mod Session
pub mod Sync
pub mod Socket
pub mod Account
