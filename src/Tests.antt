-- ===== src/Tests.antt =====
-- The theorems applied to small inputs.
mod Fixtures
mod Stores
mod Handlers
mod Tokens
mod Clients
mod Hub
mod Sockets
mod Accounts
mod Pumps
mod Metas
