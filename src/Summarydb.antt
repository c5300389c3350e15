-- ===== src/Summarydb.antt =====
-- src/summarydb: the store of summaries, of which the impact set is modelled.
pub mod Impact
pub mod Tests
