-- ===== src/Solver/Start.antt =====
-- The constructor of `AbstDetSeqSolver`.
use dps_pos.Base.{ℕ, []}
use dps_pos.Base.Result.{Result, ok, ◌>>=◌}
use dps_pos.Period.Buffer
use dps_pos.Period.Manager
use dps_pos.Parallel.Options.{Options}
use dps_pos.Parallel.Sharer.{Sharer}
use dps_pos.Solver.{Solver}

-- `now` is `realTime()`. The reference to the thread's queue is its number here, but the look-up is made.
-- The thread has made no memory accesses yet.
unfoldable pub new_solver :
    {Double State : Type 0}
    → Sharer
    → Options Double
    → State
    → ℕ
    → Double
    → Result (Solver Double State)
new_solver s o base id now = Manager.get s.pcqm id >>= λ q. ok (record {
  options = o;
  base = base;
  num_mem_accesses = 0;
  thn = id;
  margin = o.margin;
  periods = 0;
  mem_acc_lim = o.mem_acc_lim;
  exp_clauses_buf = Buffer.init;
  imported_clauses = [];
  imported_unit_clauses = [];
  fapp_clauses = o.fapp_clauses;
  fapp_periods = o.fapp_periods;
  last_fapp_period = 0;
  sum_mem_accs = 0;
  ema_mem_accs = o.mem_acc_lim;
  ema_prev_confs = 0;
  next_mem_acc_lim = o.mem_acc_lim;
  exp_lits_lim = o.exp_lits_lim;
  exp_lits_margin = o.exp_lits_margin;
  prev_exp_lits = 0;
  prev_exp_confs = 0;
  start_real_time = now;
  real_time_lim = o.real_time_lim;
  mem_use_lim = o.mem_use_lim;
  num_imported_clauses = 0;
  num_exported_clauses = 0;
  num_forced_applications = 0;
})
