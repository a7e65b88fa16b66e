-- ===== src/Parallel/DetParallelSolver.antt =====
-- DPS-src/parallel/DetParallelSolver.cpp: the threads of a run and what they share.
pub mod Threads
mod Tests
use dps_pos.Base.{ℕ, List, Bool, not, ◌&&◌, ltb, ◌==◌, if◌then◌else◌}
use dps_pos.Parallel.Options.{Options, Setup, done, ◌>>=◌}
use dps_pos.Parallel.Sharer.{Sharer}
use dps_pos.Parallel.Sharer
use dps_pos.Solver.{Doubles, Solver}
use dps_pos.Solver.Factory.{Wrapper, create_sat_solvers}

pub record DetParallelSolver (Double State : Type 0) : Type 0 where
  pub sharer : Sharer
  pub num_threads : ℕ
  pub solvers : List (Solver Double State)

module _ (D : Doubles) where
  open D use {Double, of_uint, to_uint, mul, div, lt}

  -- The number of threads before it is adjusted; `cpus` is `hardware_concurrency()`.
  unfoldable pub requested_threads : Options Double → ℕ → ℕ
  requested_threads o cpus = if o.num_threads == 0 then cpus else o.num_threads

  -- `used` is the memory that is in use after loading.
  unfoldable pub adjust_threads : Options Double → Double → ℕ → ℕ
  adjust_threads o used num_threads =
      let mem_use_lim = to_uint o.mem_use_lim in
      let n = to_uint (div (of_uint mem_use_lim) (mul used (of_uint o.adjust_threads))) in
      let n1 = if n == 0 then 1 else n in
      let n2 = if ltb num_threads n1 then num_threads else n1 in
      if ltb 0 o.adjust_threads && ltb 0 mem_use_lim
      then (if not (lt used (of_uint 250))
          then (if n2 == num_threads then num_threads else n2)
          else num_threads)
      else num_threads

  -- `base` is the state of the new solver of a library, and `now` the time.
  unfoldable pub generate_all_solvers :
      {State : Type 0}
      → (Wrapper → State)
      → Double
      → Options Double
      → Double
      → ℕ
      → ℕ
      → Setup (DetParallelSolver Double State)
  generate_all_solvers base now o used cpus counter =
      let n = adjust_threads o used (requested_threads o cpus) in
      let s = Sharer.init n o.margin o.mem_acc_lim o.non_det in
      create_sat_solvers base now n s o counter >>= λ r.
      done (record { sharer = s; num_threads = n; solvers = r.1 })
