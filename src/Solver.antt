-- ===== src/Solver.antt =====
-- One solver thread: DPS-src/solvers/AbstDetSeqSolver.h and AbstDetSeqSolver.cpp.
--
-- The class is abstract. What a base solver adds (`getNumConflicts`, `incExpClauseGen`,
-- `decExpClauseGen` and the state that they use) is a parameter, and so are the floating-point
-- numbers and their operations.
pub mod Import
pub mod Period
pub mod Kissat
pub mod KissatWrapper
pub mod Report
pub mod Threshold
pub mod Start
pub mod Factory
use dps_pos.Base.{ℕ, Bool, List}
use dps_pos.Period.Clause.{Clause}
use dps_pos.Period.Buffer.{ClauseBuffer}
use dps_pos.Parallel.Options.{Options}

-- `double`, with the conversions from and to unsigned integers.
pub record Doubles : Type 1 where
  pub Double : Type 0
  pub of_uint : ℕ → Double
  pub to_uint : Double → ℕ
  pub one : Double
  pub add : Double → Double → Double
  pub sub : Double → Double → Double
  pub mul : Double → Double → Double
  pub div : Double → Double → Double
  pub lt : Double → Double → Bool
  pub eq : Double → Double → Bool

-- The estimator of quantiles of utils/p2.h, by the calls that are made of it.
pub record Quantiles (Double : Type 0) : Type 1 where
  pub Dist : Type 0
  pub insert : ℕ → Dist → Dist
  pub result : Dist → Double → Double

-- What the base solver implements.
pub record BaseSolver : Type 1 where
  pub State : Type 0
  pub get_num_conflicts : State → ℕ
  pub inc_exp_clause_gen : State → State
  pub dec_exp_clause_gen : State → State

-- `num_mem_accesses` is a thread-local variable of ThreadLocalVars.h.
pub record Solver (Double State : Type 0) : Type 0 where
  pub options : Options Double
  pub base : State
  pub num_mem_accesses : ℕ
  pub thn : ℕ
  pub margin : ℕ
  pub periods : ℕ
  pub mem_acc_lim : ℕ
  pub exp_clauses_buf : ClauseBuffer
  pub imported_clauses : List Clause
  pub imported_unit_clauses : List Clause
  pub fapp_clauses : ℕ
  pub fapp_periods : ℕ
  pub last_fapp_period : ℕ
  pub sum_mem_accs : ℕ
  pub ema_mem_accs : ℕ
  pub ema_prev_confs : ℕ
  pub next_mem_acc_lim : ℕ
  pub exp_lits_lim : ℕ
  pub exp_lits_margin : Double
  pub prev_exp_lits : ℕ
  pub prev_exp_confs : ℕ
  pub start_real_time : Double
  pub real_time_lim : Double
  pub mem_use_lim : Double
  pub num_imported_clauses : ℕ
  pub num_exported_clauses : ℕ
  pub num_forced_applications : ℕ
