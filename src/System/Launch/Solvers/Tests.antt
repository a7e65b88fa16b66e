-- ===== src/System/Launch/Solvers/Tests.antt =====
-- The period check of the first of two threads, the other of which has completed the set that is due.
use dps_pos.Base.{
  ℕ, ◌+◌, ◌-◌, ◌*◌, ◌/◌, ◌≡◌, refl, subst, Bool, [], ◌∷◌, none, true, false, some, ltb, ◌==◌, arith,
  if◌then◌else◌,
}
use dps_pos.Base.Int.{pos}
use dps_pos.Period.Buffer
use dps_pos.Period.Queue
use dps_pos.Period.Queue.{PrdClausesQueue}
use dps_pos.Period.Queue.Invariant.{IsQueue, init-IsQueue, past}
use dps_pos.Parallel.Sharer
use dps_pos.Parallel.Sharer.{Sharer, sat}
use dps_pos.Parallel.Options.{defaults}
use dps_pos.Solver.{Doubles, BaseSolver, Solver}
use dps_pos.Solver.Import.{done}
use dps_pos.Solver.Period.{check_period, can_move_to_next_period, over_limit}
use dps_pos.System.Launch.{Worker, searching, told, stopped}
use dps_pos.System.Launch.Solvers.Ends.{report-launch}
use dps_pos.Solver.Report.{report}
use dps_pos.Base.Result.{ok}
use dps_pos.System.Launch.Alone.{with_worker}
use dps_pos.System.Launch.Ending.{Steps}
use dps_pos.System.Launch.Solvers.{Search, framework}
use dps_pos.System.Launch.Solvers.Check.{AtEnd}
use dps_pos.System.Launch.Solvers.Runs.{check_period-launch}
use dps_pos.System.Launch.Solvers.Ready.{Due}

-- Whole numbers in place of floating-point numbers.
abbrev whole : Doubles
whole = record {
  Double = ℕ;
  of_uint = λ n. n;
  to_uint = λ n. n;
  one = 1;
  add = λ a b. a + b;
  sub = λ a b. a - b;
  mul = λ a b. a * b;
  div = λ a b. a / b;
  lt = ltb;
  eq = λ a b. a == b;
}

abbrev counter : BaseSolver
counter = record {
  State = ℕ;
  get_num_conflicts = λ n. n;
  inc_exp_clause_gen = λ n. n;
  dec_exp_clause_gen = λ n. n;
}

-- A thread at the start of its period 0, with one clause to export.
abbrev starting : Solver ℕ ℕ
starting = record {
  options = record (defaults 0 1 1 3) { adpt_prd = 0; non_det = false };
  base = 5;
  num_mem_accesses = 0;
  thn = 0;
  margin = 0;
  periods = 0;
  mem_acc_lim = 1000;
  exp_clauses_buf = Buffer.add_clause Buffer.init (pos 4 ∷ []) 1;
  imported_clauses = [];
  imported_unit_clauses = [];
  fapp_clauses = 10000;
  fapp_periods = 50;
  last_fapp_period = 0;
  sum_mem_accs = 0;
  ema_mem_accs = 1000;
  ema_prev_confs = 0;
  next_mem_acc_lim = 1000;
  exp_lits_lim = 150;
  exp_lits_margin = 3;
  prev_exp_lits = 0;
  prev_exp_confs = 0;
  start_real_time = 0;
  real_time_lim = 0;
  mem_use_lim = 0;
  num_imported_clauses = 0;
  num_exported_clauses = 0;
  num_forced_applications = 0;
}

-- The search takes 1200 memory accesses a period, and finds no answer.
abbrev searches : Search whole counter
searches = record {
  search = λ v. record v { num_mem_accesses = 1200 };
  answer = λ v. none;
  late_answer = λ v. none;
  ended = λ v. v;
}

-- Thread 1 has completed period 0 and works on period 1.
abbrev other_queue : PrdClausesQueue
other_queue = record {
  thn = 1;
  num_threads = 2;
  next_period = 0 ∷ 0 ∷ [];
  queue =
      record {
        thn = 1;
        prd = 0;
        prd_len = 7;
        num_literals = 1;
        clauses = (pos 3 ∷ []) ∷ [];
        num_exported_threads = 0;
        completed = true;
      }
      ∷ record {
        thn = 1;
        prd = 1;
        prd_len = 0;
        num_literals = 0;
        clauses = [];
        num_exported_threads = 0;
        completed = false;
      }
      ∷ [];
}

abbrev shared : Sharer
shared = record (Sharer.init 2 0 1000 false) { pcqm = Queue.init 0 2 ∷ other_queue ∷ [] }

other-IsQueue : IsQueue 0 other_queue
unfolding past
other-IsQueue = record {
  sets = (refl, refl, refl, (refl, refl, refl, tt));
  some_set = omega arith;
  threads = refl;
  kept = omega arith;
  behind = omega arith;
  fits = omega arith;
}

starting-AtEnd : AtEnd whole counter 0 0 0 (searches.search starting)
unfolding can_move_to_next_period over_limit
starting-AtEnd = record {
  same_margin = refl;
  deterministic = refl;
  fixed_length = refl;
  at_end = refl;
  in_limits = refl;
  room = omega arith;
}

other-Due : Due shared 0 0 1
unfolding Sharer.init
other-Due = record {
  queue = other_queue;
  front = 0;
  next = 0;
  at = refl;
  valid = other-IsQueue;
  next_of = refl;
  not_past = omega arith;
  completed = omega arith;
}

abbrev idle : ℕ → Worker (Solver ℕ ℕ)
idle t = record { local = starting; period = 0; stage = searching }

check_period-launch_example :
    (v' : Solver ℕ ℕ) × (x' : Sharer) × (goes_on : Bool) × (check_period whole counter
        (searches.search starting)
        shared
        0
        0
      ≡ done (v', x', goes_on))
    × Steps
        (framework whole counter searches 2 0 (λ t. starting))
        (with_worker shared idle 0 starting 0 searching)
        (with_worker x' idle 0 v' (0 + 1) (if goes_on then searching else told))
unfolding Sharer.init Queue.init
check_period-launch_example =
    check_period-launch whole counter searches 2 0 (λ t. starting) idle shared starting 0 0
      (Queue.init 0 2) 0 (omega arith) (omega arith) refl refl starting-AtEnd refl
      (init-IsQueue 0 2) (omega arith)
      (λ low w l away. let e : 1 ≡ w = omega (arith, away) in subst (Due shared 0 0) e other-Due)

abbrev answering : Search whole counter
answering = record {
  search = λ v. record v { num_mem_accesses = 1200 };
  answer = λ v. some sat;
  late_answer = λ v. none;
  ended = λ v. record v { num_mem_accesses = 300 };
}

report-launch_example :
    (r : Solver ℕ ℕ × Sharer) × (report whole counter (answering.ended starting) shared sat ≡ ok r)
    × Steps
        (framework whole counter answering 2 0 (λ t. starting))
        (with_worker shared idle 0 starting 0 searching)
        (with_worker r.1 idle 0 starting 0 stopped)
unfolding Sharer.init Queue.init
report-launch_example =
    report-launch whole counter answering 2 0 (λ t. starting) idle shared starting false sat
      (Queue.init 0 2) 0 (omega arith) refl refl refl (init-IsQueue 0 2) (omega arith)
