-- ===== src/Evidence/Canonicalizer.antt =====
-- src/evidence/EvidenceCanonicalizer.cpp: the canonical bytes and the identity of an evidence case.
pub mod Elements
pub mod Expressions
pub mod Records
pub mod Findings
pub mod Collections
pub mod Root
pub mod Order
pub mod Total
pub mod Encoders
pub mod Reorder
pub mod Alike
pub mod Finalize
pub mod Tests
