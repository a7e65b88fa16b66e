-- ===== src/Solver/Threshold.antt =====
-- `AbstDetSeqSolver::getLBDUpperbound`: the bound on the LBD of clauses that are exported.
use dps_pos.Base.{ℕ, ◌-◌, ◌^◌, ◌||◌, ltb, if◌then◌else◌}
use dps_pos.Solver.{Doubles, Quantiles}

-- `confs` is `getNumConflicts()` and `quantile` is `options.getExpLBDQLim()`.
unfoldable pub get_lbd_upperbound :
    (D : Doubles) (Q : Quantiles D.Double) → ℕ → D.Double → Q.Dist → D.Double
get_lbd_upperbound D Q confs quantile dist =
    if ltb confs 1000 || D.eq quantile D.one then D.of_uint (2 ^ 32 - 1) else Q.result dist quantile
