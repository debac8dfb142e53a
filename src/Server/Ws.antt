-- ===== src/Server/Ws.antt =====
-- backend/server/src/ws-server.ts.
pub mod Frames
pub mod Connection
pub mod Pump
pub mod Hub
pub mod Messages
pub mod System
pub mod Moves
pub mod Reachable
pub mod Identity
pub mod Registry
