-- ===== src/Parallel/DetParallelSolver/Tests.antt =====
-- Six threads asked for, and memory for four.
use dps_pos.Base.{ℕ, ◌+◌, ◌-◌, ◌*◌, ◌/◌, ◌≡◌, refl, ltb, ◌==◌}
use dps_pos.Parallel.Options.{Options, defaults}
use dps_pos.Parallel.DetParallelSolver.{DetParallelSolver, requested_threads, adjust_threads}
use dps_pos.Solver.{Doubles, Solver}
use dps_pos.Solver.Factory.{Wrapper}

abbrev counted : Doubles
counted = record {
  Double = ℕ;
  of_uint = λ n. n;
  to_uint = λ n. n;
  one = 1;
  add = λ a b. a + b;
  sub = λ a b. a - b;
  mul = λ a b. a * b;
  div = λ a b. a / b;
  lt = ltb;
  eq = λ a b. a == b;
}

abbrev six : Options ℕ
six = record (defaults 0 1 1 3) { num_threads = 6; mem_use_lim = 4000 }

fitted : adjust_threads counted six 300 (requested_threads counted six 16) ≡ 4
unfolding adjust_threads requested_threads
fitted = refl

abbrev base_state : Wrapper → ℕ
base_state w = 0
