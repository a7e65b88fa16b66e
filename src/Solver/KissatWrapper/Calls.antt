-- ===== src/Solver/KissatWrapper/Calls.antt =====
-- DPS-src/solvers/KissatWrapper.h and KissatWrapper.cpp: what a wrapped Kissat solver exports, how it
-- gets its formula, and its run; with dps_check_period of kissat/kissat-sc2021/src/dps_api.c.
pub mod Threshold
pub mod Fed
mod Tests
use dps_pos.Base.{
  ℕ, zero, suc, ◌+◌, List, [], ◌∷◌, Bool, true, false, not, ◌&&◌, Option, none, some, length, u64,
  ltb, leb, ◌==◌, if◌then◌else◌,
}
use dps_pos.Base.Int.{ℤ, pos}
use dps_pos.Base.Result.{Result, ok, ◌>>=◌}
use dps_pos.Period.Clause.{Clause}
use dps_pos.Period.Buffer.{ClauseBuffer}
use dps_pos.Period.Buffer
use dps_pos.Parallel.Sharer.{Sharer, SatResult, sat, unsat, unknown}
use dps_pos.Sat.Instance.{Instance}
use dps_pos.Solver.{Doubles, Quantiles, BaseSolver, Solver}
use dps_pos.Solver.Import.{Outcome, done}
use dps_pos.Solver.Import
use dps_pos.Solver.Period.{check_period}
use dps_pos.Solver.Report.{report}
use dps_pos.Solver.Threshold.{get_lbd_upperbound}

-- What the wrapper adds to the class, and the fields of the class that its filter uses.
pub record KissatWrapper (Double Dist : Type 0) : Type 0 where
  pub exp_clause_lbd_lim : Double
  pub exp_lbdq_lim : Double
  pub lbd_dist : Dist
  pub exp_clauses_buf : ClauseBuffer

module _ (D : Doubles) (Q : Quantiles D.Double) where
  open D use {Double, of_uint, to_uint, one, add, sub, div, lt}

  unfoldable pub inc_exp_clause_gen : KissatWrapper Double Q.Dist → KissatWrapper Double Q.Dist
  inc_exp_clause_gen v = record v {
    exp_clause_lbd_lim = add v.exp_clause_lbd_lim (div one v.exp_clause_lbd_lim);
  }

  -- `std::max(2.0, x)` is 2.0 unless it is less than `x`.
  unfoldable pub dec_exp_clause_gen : KissatWrapper Double Q.Dist → KissatWrapper Double Q.Dist
  dec_exp_clause_gen v =
      let lim = sub v.exp_clause_lbd_lim one in
      record v { exp_clause_lbd_lim = if lt (of_uint 2) lim then lim else of_uint 2 }

  -- `std::min(a, b)` is `a` unless `b` is less. `confs` is `getNumConflicts()`.
  unfoldable pub get_exp_lbd_threshold : KissatWrapper Double Q.Dist → ℕ → ℕ
  get_exp_lbd_threshold v confs =
      let upper = get_lbd_upperbound D Q confs v.exp_lbdq_lim v.lbd_dist in
      to_uint (if lt upper v.exp_clause_lbd_lim then upper else v.exp_clause_lbd_lim)

  unfoldable pub should_be_exported :
      KissatWrapper Double Q.Dist → ℕ → ℕ → KissatWrapper Double Q.Dist × Bool
  should_be_exported v confs lbd =
      let v' = record v { lbd_dist = Q.insert lbd v.lbd_dist } in
      let threshold = get_exp_lbd_threshold v' confs in (v', ltb 0 threshold && leb lbd threshold)

  -- The LBD is an argument of the source too, and is not used.
  unfoldable pub unchecked_export_clause :
      KissatWrapper Double Q.Dist → Clause → ℕ → KissatWrapper Double Q.Dist
  unchecked_export_clause v clause lbd = record v {
    exp_clauses_buf = Buffer.add_clause v.exp_clauses_buf clause (length clause);
  }

-- `kissat_reserve` and `kissat_add`. Either may abort: the argument may be too large for Kissat.
pub record KissatInput : Type 1 where
  pub State : Type 0
  pub reserve : ℕ → State → Result State
  pub add : ℤ → State → Result State

module _ (k : KissatInput) where
  unfoldable pub add_literals : Clause → k.State → Result k.State
  add_literals [] s = ok s
  add_literals (n ∷ clause) s = k.add n s >>= add_literals clause

  unfoldable pub add_clauses : List Clause → k.State → Result k.State
  add_clauses [] s = ok s
  add_clauses (clause ∷ clauses) s =
      add_literals clause s >>= λ s'. k.add (pos 0) s' >>= add_clauses clauses

  -- The wrapper's `num_vars`, the return value and the solver.
  unfoldable pub load_formula : Instance → k.State → Result (ℕ × Bool × k.State)
  load_formula i s =
      k.reserve i.num_vars s >>= λ s'. add_clauses i.clauses s' >>= λ t. ok (i.num_vars, true, t)

unfoldable pub result_of : ℕ → SatResult
result_of res = if res == 10 then sat else if res == 20 then unsat else unknown

-- The formula is loaded once: `input_formula` is null afterwards. The search, with all the calls that
-- it makes of the wrapper on its way, is a parameter.
module _ (D : Doubles) (B : BaseSolver) (k : KissatInput) where
  unfoldable pub load_input : Option Instance → k.State → Result k.State
  load_input none s = ok s
  load_input (some i) s = load_formula k i s >>= λ r. ok r.2

  unfoldable pub solve :
      (k.State → Solver D.Double B.State × Sharer → ℕ × (Solver D.Double B.State × Sharer))
      → Option Instance
      → k.State
      → Solver D.Double B.State × Sharer
      → Result (Solver D.Double B.State × Sharer)
  solve kissat_solve input_formula s v = load_input input_formula s >>= λ s'.
      let r = kissat_solve s' v in report D B r.1.0 r.1.1 (result_of r.0)

-- The fields of the solver that `dps_check_period` uses.
pub record Ticks : Type 0 where
  pub should_be_terminated : Bool
  pub dps_ticks : ℕ

-- The solver has a wrapper. `used` and `now` are the system's reports.
module _ (D : Doubles) (B : BaseSolver) where
  unfoldable pub dps_check_period :
      Ticks
      → Solver D.Double B.State
      → Sharer
      → D.Double
      → D.Double
      → Outcome (Ticks × Solver D.Double B.State × Sharer × Bool)
  dps_check_period t v s used now =
      if t.should_be_terminated
      then done (t, v, s, false)
      else Import.◌>>=◌
          (check_period D B (record v { num_mem_accesses = u64 (v.num_mem_accesses + t.dps_ticks) })
            s used now)
          (λ r. done (record { should_be_terminated = not r.2; dps_ticks = 0 }, r.0, r.1, r.2))
