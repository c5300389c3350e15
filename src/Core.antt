-- ===== src/Core.antt =====
-- The core library, src/core: errors, SHA-256, stable identifiers and the canonical encoding.
pub mod Status
pub mod Hash
pub mod Ids
pub mod Canonical
pub mod Tests
