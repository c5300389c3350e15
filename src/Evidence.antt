-- ===== src/Evidence.antt =====
-- The Evidence IR, src/evidence.
pub mod Utf8
pub mod Case
pub mod Canonicalizer
pub mod Validator
pub mod Writer
pub mod Completion
pub mod Lexer
pub mod Tests
