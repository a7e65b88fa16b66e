-- ===== src/System/Launch/Solvers.antt =====
-- A launch of abstract solvers: what the threads of a launch do between two accesses to shared state,
-- from the methods of `AbstDetSeqSolver`. The search of a base solver is a parameter.
pub mod Selected
pub mod Fields
pub mod Exchange
pub mod Import
pub mod Check
pub mod Complete
pub mod Simulation
pub mod Ready
pub mod Runs
pub mod Ends
mod Tests
use dps_pos.Base.{ℕ, ◌+◌, List, [], Option, u64, ltb, ◌==◌, if◌then◌else◌}
use dps_pos.Base.Result.{Result, ok, fault}
use dps_pos.Period.Clause.{Clause}
use dps_pos.Period.Buffer.{ClauseBuffer, export_to}
use dps_pos.Period.PrdClauses.{PrdClauses}
use dps_pos.Period.PrdClauses
use dps_pos.Parallel.Sharer.{SatResult}
use dps_pos.Solver.{Doubles, BaseSolver, Solver}
use dps_pos.Solver.Period.{control_exports, get_new_period_length, move_to_next_period}
use dps_pos.Solver.Import.{Imports}
use dps_pos.Solver.Import.Window.{Parcel}
use dps_pos.System.Launch.{Program}

abbrev pub selection_of :
    ClauseBuffer → Result (ClauseBuffer × PrdClauses × ℕ) → List Clause × ClauseBuffer × ℕ
selection_of b (ok (b', p, n)) = (p.clauses, b', n)
selection_of b fault = ([], b, 0)

-- The clauses that `exportTo` selects, the buffer that is left, and their number.
pub selection : ClauseBuffer → ℕ → List Clause × ClauseBuffer × ℕ
unfolding PrdClauses.init
selection b max = selection_of b (export_to b (PrdClauses.init 0 0) max)

module _ {Double State : Type 0} where
  abbrev pub stay : Solver Double State → Result (Solver Double State) → Solver Double State
  stay v (ok v') = v'
  stay v fault = v

  abbrev pub held : Solver Double State → Imports
  held v = record {
    clauses = v.imported_clauses;
    units = v.imported_unit_clauses;
    sum_prd_len_cand = 0;
  }

  -- The thread with what it has imported.
  abbrev pub imported : Solver Double State → Imports → Solver Double State
  imported v m = record v {
    imported_clauses = m.clauses;
    imported_unit_clauses = m.units;
    next_mem_acc_lim = v.mem_acc_lim;
  }

  abbrev pub absorb : Solver Double State → Imports → Solver Double State
  absorb v m = stay v (move_to_next_period (if ltb v.periods v.margin then v else imported v m))

module _ (D : Doubles) (B : BaseSolver) where
  abbrev pub after_export : Solver D.Double B.State → ClauseBuffer → ℕ → Solver D.Double B.State
  after_export v b n =
      let v' : Solver D.Double B.State = record v {
        exp_clauses_buf = b;
        num_exported_clauses = u64 (v.num_exported_clauses + n);
      } in
      if v.exp_lits_lim == 0 then v' else control_exports D B v'

  -- The thread's own part of the end of a period.
  abbrev pub export : Solver D.Double B.State → Solver D.Double B.State × Parcel
  export v =
      let (xs, b, n) = selection v.exp_clauses_buf v.exp_lits_lim in
      let l = get_new_period_length D B (after_export v b n) in
      (l.0, record { clauses = xs; prd_len = l.1 })

-- The base solver in a period: where its search is when the period ends, the answer that it ends with
-- if it does, the answer that it still comes to after it was told to stop, if it may come to one, and
-- where it is at its end.
pub record Search (D : Doubles) (B : BaseSolver) : Type 0 where
  pub search : Solver D.Double B.State → Solver D.Double B.State
  pub answer : Solver D.Double B.State → Option SatResult
  pub late_answer : Solver D.Double B.State → Option SatResult
  pub ended : Solver D.Double B.State → Solver D.Double B.State

abbrev pub framework :
    (D : Doubles) (B : BaseSolver)
    → Search D B
    → ℕ
    → ℕ
    → (ℕ → Solver D.Double B.State)
    → Program (Solver D.Double B.State)
framework D B b num_threads margin first = record {
  setup = record {
    num_threads = num_threads;
    margin = margin;
    first = first;
    work = λ v. export D B (b.search v);
    held = held;
    absorb = absorb;
  };
  answer = b.answer;
  late_answer = b.late_answer;
  last_len = λ v. (get_new_period_length D B (b.ended v)).1;
}
