-- ===== src/Core/Handlers.antt =====
-- backend/core/src/handlers: the four request handlers, over any store.
pub mod Push
pub mod Pull
pub mod Challenge
pub mod Token
