-- ===== src/Evidence/Case.antt =====
-- The Evidence IR model, include/veritas/evidence/EvidenceCase.h.
pub mod Enums
pub mod Records
pub mod Names
pub mod Parse
pub mod Families
pub mod Spellings
pub mod Compare
