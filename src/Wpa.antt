-- ===== src/Wpa.antt =====
-- src/wpa: the whole-program analysis over the facts of the function summaries.
pub mod Rules
pub mod Tests
