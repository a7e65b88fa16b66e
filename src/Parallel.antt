-- ===== src/Parallel.antt =====
-- What the threads share: DPS-src/parallel/.
pub mod Sharer
pub mod Options
pub mod DetParallelSolver
