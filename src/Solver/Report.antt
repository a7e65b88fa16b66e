-- ===== src/Solver/Report.antt =====
-- How each wrapper's `solve` ends: the thread reports its result and completes its last period.
pub mod Last
use dps_pos.Base.{ℕ}
use dps_pos.Base.Int.{pos}
use dps_pos.Base.Result.{Result, ok, ◌>>=◌}
use dps_pos.Parallel.Sharer.{Sharer, SatResult}
use dps_pos.Parallel.Sharer
use dps_pos.Solver.{Doubles, BaseSolver, Solver}
use dps_pos.Solver.Period.{get_new_period_length}

module _ (D : Doubles) (B : BaseSolver) where
  open D use {Double}
  open B use {State}

  -- `sharer->IFinished(result, periods, thn); completeCurrPeriod();`
  unfoldable pub report :
      Solver Double State → Sharer → SatResult → Result (Solver Double State × Sharer)
  report v s status = Sharer.i_finished s status v.periods (pos v.thn) >>= λ r.
      let l = get_new_period_length D B v in
      Sharer.complete_curr_period r.0 v.thn l.1 >>= λ s'. ok (l.0, s')
