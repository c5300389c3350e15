-- ===== src/Svf.antt =====
-- src/analysis/svf: the pointer analysis stage, of which the resource budget is modelled.
pub mod Budget
pub mod Tests
