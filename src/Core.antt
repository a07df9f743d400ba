-- ===== src/Core.antt =====
-- astra/core: the services that every part uses.
pub mod Permissions
pub mod Blobs
pub mod Tasks
