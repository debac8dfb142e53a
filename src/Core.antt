-- ===== src/Core.antt =====
-- backend/core: the runtime-neutral backend.
pub mod Types
pub mod Cursor
pub mod Sqlite
pub mod Jwt
pub mod Http
pub mod Store
pub mod Did
pub mod Auth
pub mod Schema
pub mod Config
pub mod SigningKey
pub mod Handlers
