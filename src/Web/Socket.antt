-- ===== src/Web/Socket.antt =====
-- apps/web/src/sync/WebSocketTransport.ts and NegotiatingTransport.ts.
pub mod Client
pub mod Meta
pub mod Negotiation
pub mod Drain
pub mod Pushes
