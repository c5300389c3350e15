-- ===== src/Runtime.antt =====
-- src/runtime: the incremental runtime, of which the scheduler is modelled.
pub mod Worklist
pub mod Tests
