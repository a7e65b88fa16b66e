-- ===== src/Solver/Period/Tests.antt =====
-- The theorems on periods and imports at concrete states.
use dps_pos.Base.{
  ◌+◌, ◌-◌, ◌/◌, ◌≤◌, ◌<◌, ◌≡◌, ◌⊎◌, refl, [], ◌∷◌, true, false, length, arith, slice,
}
use dps_pos.Base.Int.{pos}
use dps_pos.Period.PrdClauses.{PrdClauses}
use dps_pos.Period.Queue.{PrdClausesQueue}
use dps_pos.Period.Queue.Invariant.{past, IsQueue}
use dps_pos.Period.Buffer
use dps_pos.Parallel.Options.{Options, defaults}
use dps_pos.Solver.{Solver}
use dps_pos.Solver.Import.{done, waits, Imports, import_queue}
use dps_pos.Solver.Import.Window.{parcels, receive, Taken, import_queue-due, import_queue-waits}
use dps_pos.Solver.Period.{should_apply_imported_clauses}
use dps_pos.Solver.Period.Schedule.{should_apply_imported_clauses_lem}

abbrev settings : Options (Unit {0})
settings = defaults tt tt tt tt

-- A thread at the end of period 60, with one unit clause imported.
worker : Solver (Unit {0}) (Unit {0})
worker = record {
  options = settings;
  base = tt;
  num_mem_accesses = 1200;
  thn = 0;
  margin = 20;
  periods = 60;
  mem_acc_lim = 1000;
  exp_clauses_buf = Buffer.init;
  imported_clauses = [];
  imported_unit_clauses = (pos 3 ∷ []) ∷ [];
  fapp_clauses = 10000;
  fapp_periods = 50;
  last_fapp_period = 5;
  sum_mem_accs = 0;
  ema_mem_accs = 1000;
  ema_prev_confs = 0;
  next_mem_acc_lim = 1000;
  exp_lits_lim = 150;
  exp_lits_margin = tt;
  prev_exp_lits = 0;
  prev_exp_confs = 0;
  start_real_time = tt;
  real_time_lim = tt;
  mem_use_lim = tt;
  num_imported_clauses = 0;
  num_exported_clauses = 0;
  num_forced_applications = 0;
}

-- The unit clause is applied: 60 is not before 5 + 50.
applied : (should_apply_imported_clauses worker 4).1 ≡ true
unfolding worker should_apply_imported_clauses
applied = refl

should_apply_imported_clauses_lem_example :
    ((should_apply_imported_clauses worker 4
        ≡ (record worker { last_fapp_period = worker.periods }, true))
      × (worker.last_fapp_period + worker.fapp_periods ≤ worker.periods)
      × ((0 < length worker.imported_unit_clauses)
          ⊎ ((0 < worker.fapp_clauses)
              × (worker.fapp_clauses ≤ length worker.imported_clauses / 4))))
    ⊎ ((should_apply_imported_clauses worker 4 ≡ (worker, false))
        × ((worker.periods < worker.last_fapp_period + worker.fapp_periods)
            ⊎ ((length worker.imported_unit_clauses ≡ 0)
                × ((worker.fapp_clauses ≡ 0)
                    ⊎ (length worker.imported_clauses / 4 < worker.fapp_clauses)))))
unfolding worker
should_apply_imported_clauses_lem_example = should_apply_imported_clauses_lem worker 4 (omega arith)

abbrev sent_set : PrdClauses
sent_set = record {
  thn = 1;
  prd = 0;
  prd_len = 7;
  num_literals = 3;
  clauses = (pos 1 ∷ pos 2 ∷ []) ∷ (pos 3 ∷ []) ∷ [];
  num_exported_threads = 0;
  completed = true;
}

abbrev open_set : PrdClauses
open_set = record {
  thn = 1;
  prd = 1;
  prd_len = 0;
  num_literals = 0;
  clauses = [];
  num_exported_threads = 0;
  completed = false;
}

-- Thread 1 has completed period 0 and works on period 1.
abbrev source : PrdClausesQueue
source = record {
  thn = 1;
  num_threads = 2;
  next_period = 0 ∷ 0 ∷ [];
  queue = sent_set ∷ open_set ∷ [];
}

source-IsQueue : IsQueue 0 source
unfolding past
source-IsQueue = record {
  sets = (refl, refl, refl, (refl, refl, refl, tt));
  some_set = omega arith;
  threads = refl;
  kept = omega arith;
  behind = omega arith;
  fits = omega arith;
}

abbrev nothing : Imports
nothing = record { clauses = []; units = []; sum_prd_len_cand = 0 }

import_queue-due_example :
    (q' : PrdClausesQueue) × (import_queue 3 false 0 0 source nothing
      ≡ done (q', receive (slice (0 - 0) (1 - 0) (parcels source)) nothing))
    × Taken 0 0 0 source q'
import_queue-due_example =
    import_queue-due 0 0 0 0 false source nothing source-IsQueue refl (omega arith) (omega arith)

import_queue-waits_example : import_queue 3 false 0 1 source nothing ≡ waits
import_queue-waits_example =
    import_queue-waits 0 0 0 1 source nothing source-IsQueue refl (omega arith)
