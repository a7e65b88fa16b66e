-- ===== src/Sat.antt =====
-- DPS-src/sat: the input formula and the assignments that solve it.
pub mod Instance
pub mod Model
mod Tests
