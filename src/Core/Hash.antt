-- ===== src/Core/Hash.antt =====
-- src/core/Hash.cpp: the SHA-256 implementation and the hexadecimal form of a digest.
pub mod Words
pub mod Hasher
pub mod Drain
pub mod Stream
pub mod Padding
pub mod Hex
