-- ===== src/System/Tests.antt =====
-- Two threads, two orders, and the claims about them on these runs.
use dps_pos.Base.{ℕ, ◌+◌, ◌≡◌, refl, [], ◌∷◌, length, arith, inl, get_elem?, some}
use dps_pos.Base.Result.{ok}
use dps_pos.Base.Int.{pos}
use dps_pos.Period.PrdClauses
use dps_pos.Period.Queue
use dps_pos.Period.Manager
use dps_pos.Solver.Import.{import_queue, take_set, push_all}
use dps_pos.System.{
  Setup, System, init, publish, add_clauses, Step, finish, take, move, Reach, start, later,
}
use dps_pos.System.Rounds.{state_at, export_at}
use dps_pos.Solver.Import.Window.{parcels}
use dps_pos.Period.Queue.{PrdClausesQueue}
use dps_pos.System.Determinism.{Reach-state_at, Reach-export_at}
use dps_pos.System.Progress.{Reach_progress}

-- The threads count: a period adds 1, and exports what the count was; a clause that comes in adds 1.
abbrev counting : Setup ℕ
counting = record {
  num_threads = 2;
  margin = 0;
  first = λ t. t;
  work = λ l. (l + 1, record { clauses = (pos l ∷ pos 7 ∷ []) ∷ []; prd_len = 1 });
  held = λ l. record { clauses = []; units = []; sum_prd_len_cand = 0 };
  absorb = λ l m. l + length m.clauses;
}

abbrev Run : Type 0
Run = (s : System ℕ) × Reach counting s

-- Thread 0 is the first to end its period, and the first to import.
run_0 : Run
unfolding init publish add_clauses PrdClauses.add_clause Queue.last Queue.set_last
    Queue.complete_addition PrdClauses.complete_addition Queue.remove_exported Queue.init
    PrdClauses.init Manager.get Manager.set_num_threads import_queue Queue.get_next Queue.at_period
    Queue.complete_exportation Queue.export_set PrdClauses.complete_exportation
run_0 =
    let ends_0 : Run = (_, later start (finish 0 (omega arith) refl (omega arith) refl refl)) in
    let ends_1 : Run = (_, later ends_0.1 (finish 1 (omega arith) refl (omega arith) refl refl)) in
    let takes_0 : Run =
      (_, later ends_1.1 (take 0 1 (omega arith) refl (omega arith) (omega arith) refl refl)) in
    (_, later takes_0.1 (move 0 2 (omega arith) refl (inl (omega arith))))

-- Thread 1 is first in all that it does.
run_1 : Run
unfolding init publish add_clauses PrdClauses.add_clause Queue.last Queue.set_last
    Queue.complete_addition PrdClauses.complete_addition Queue.remove_exported Queue.init
    PrdClauses.init Manager.get Manager.set_num_threads import_queue Queue.get_next Queue.at_period
    Queue.complete_exportation Queue.export_set PrdClauses.complete_exportation
run_1 =
    let ends_1 : Run = (_, later start (finish 1 (omega arith) refl (omega arith) refl refl)) in
    let ends_0 : Run = (_, later ends_1.1 (finish 0 (omega arith) refl (omega arith) refl refl)) in
    let takes_1 : Run =
      (_, later ends_0.1 (take 1 1 (omega arith) refl (omega arith) (omega arith) refl refl)) in
    let moves_1 : Run = (_, later takes_1.1 (move 1 2 (omega arith) refl (inl (omega arith)))) in
    let takes_0 : Run =
      (_, later moves_1.1 (take 0 1 (omega arith) refl (omega arith) (omega arith) refl refl)) in
    (_, later takes_0.1 (move 0 2 (omega arith) refl (inl (omega arith))))

-- Both runs take thread 0 from 0 to 2: its own work and one clause.
count_0 : (run_0.0.threads 0).local ≡ 2
unfolding run_0 take_set push_all
count_0 = refl

count_1 : (run_1.0.threads 0).local ≡ 2
unfolding run_1 take_set push_all
count_1 = refl

Reach-state_at_example : (run_0.0.threads 0).local ≡ state_at counting (run_0.0.threads 0).period 0
unfolding run_0 take_set push_all
Reach-state_at_example = Reach-state_at counting run_0.0 0 run_0.1 refl

Reach_progress_example : (s' : System ℕ) × Step counting (init counting) s'
unfolding init
Reach_progress_example =
    Reach_progress counting (init counting) start (omega arith) (λ t h. omega arith)

Reach-export_at_example :
    (q : PrdClausesQueue) × (Manager.get run_0.0.queues 1 ≡ ok q)
    × (get_elem? (parcels q) 0 ≡ some (export_at counting 0 1))
unfolding run_0
Reach-export_at_example = Reach-export_at counting run_0.0 1 0 run_0.1 (omega arith) (omega arith)
