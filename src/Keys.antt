-- ===== src/Keys.antt =====
-- The API keys of a customer, and the cache in which the API resolves a presented key.
pub mod Rows
pub mod Counts
pub mod Safety
pub mod Rotation
pub mod Ceiling
pub mod Cache
pub mod Entries
pub mod Steps
pub mod Freshness
pub mod Load
pub mod Dunning
pub mod FirstLogin
mod Examples
