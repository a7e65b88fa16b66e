-- ===== src/Period.antt =====
-- The clauses that threads exchange, period by period: DPS-src/period/ and DPS-src/sat/Clause.h.
pub mod Clause
pub mod PrdClauses
pub mod Queue
pub mod Buffer
pub mod Manager
pub mod Wait
