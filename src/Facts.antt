-- ===== src/Facts.antt =====
-- The fact layer, src/facts: how strongly a derived fact holds, and the keys that name facts.
pub mod Epistemic
pub mod KeyCodec
pub mod Tests
