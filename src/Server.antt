-- ===== src/Server.antt =====
-- backend/server: the self-hosted server.
pub mod Ws
pub mod Meta
pub mod Negotiated
