-- ===== src/Simp/MiniSat.antt =====
-- DPS-src/solvers/MiniSatWrapper.h and MiniSatWrapper.cpp, and what was added to
-- minisat/minisat-2.2.0/core/Solver.cc.
use dps_pos.Base.{
  ℕ, List, map, Bool, not, ◌&&◌, Option, none, some, length, ltb, if◌then◌else◌, ◌==◌,
}
use dps_pos.Base.Result.{Result, ok, ◌>>=◌}
use dps_pos.Period.Clause.{Clause}
use dps_pos.Period.Buffer.{ClauseBuffer}
use dps_pos.Period.Buffer
use dps_pos.Parallel.Sharer.{Sharer}
use dps_pos.Sat.Instance.{Instance}
use dps_pos.Sat.Model.{Model}
use dps_pos.Solver.{Doubles, BaseSolver, Solver}
use dps_pos.Solver.Report.{report}
use dps_pos.Simp.{SimpSolver, Lbool, result_of, int_lit, Applied}
use dps_pos.Simp

-- The fields that the constructor sets in the library's solver: `random_seed += id` and
-- `rand_pick_first_conflict`.
pub record Diversity : Type 0 where
  pub seed_offset : ℕ
  pub rand_pick_first_conflict : Bool

unfoldable pub diversify : ℕ → Diversity
diversify id = record { seed_offset = id; rand_pick_first_conflict = not (id == 0) }

-- How a clause of two or more literals is kept.
pub record LearntCalls (k : SimpSolver) : Type 1 where
  pub Ref : Type 0
  pub alloc : List k.Lit → k.State → Ref × k.State
  pub push_learnt : Ref → k.State → k.State
  pub attach_clause : Ref → k.State → k.State
  pub bump_activity : Ref → k.State → k.State

module _ (k : SimpSolver) where
  -- `loadFormula`, `getModel` and `applyImportedClauses` are the shared ones.
  unfoldable pub load_formula : Instance → k.State → Result (Bool × k.State)
  load_formula i s = Simp.load_formula k i.clauses s

  unfoldable pub get_model : k.State → Model
  get_model s = Simp.get_model k s

  unfoldable pub store : LearntCalls k → List k.Lit → k.State → k.State
  store n add_tmp s =
      let r = n.alloc add_tmp s in n.bump_activity r.0 (n.attach_clause r.0 (n.push_learnt r.0 r.1))

  unfoldable pub apply_imported_clauses :
      LearntCalls k → List Clause → List Clause → ℕ → ℕ → k.State → Result (Applied k)
  apply_imported_clauses n units clauses imported forced s =
      Simp.apply_imported_clauses k (store n) units clauses imported forced s

  -- `exportClause`: the buffer of the clauses to export, for a limit on the length that may be 0.
  unfoldable pub export_clause : ℕ → List k.Lit → ClauseBuffer → ClauseBuffer
  export_clause exp_clause_len_lim cls buf =
      if ltb 0 exp_clause_len_lim && ltb exp_clause_len_lim (length cls)
      then buf
      else Buffer.add_clause buf (map (int_lit k) cls) (length cls)

-- `solve`. The formula is loaded once: `input_formula` is null afterwards. The search, with all the
-- calls that it makes of the wrapper on its way, is a parameter; its argument says whether to
-- preprocess.
module _ (D : Doubles) (B : BaseSolver) (k : SimpSolver) where
  unfoldable pub load_input : Option Instance → k.State → Result k.State
  load_input none s = ok s
  load_input (some i) s = load_formula k i s >>= λ r. ok r.1

  unfoldable pub solve :
      (Bool
        → k.State
        → Solver D.Double B.State × Sharer
        → Lbool × (Solver D.Double B.State × Sharer))
      → Bool
      → Option Instance
      → k.State
      → Solver D.Double B.State × Sharer
      → Result (Solver D.Double B.State × Sharer)
  solve solve_limited ms_simp input_formula s v = load_input input_formula s >>= λ s'.
      let r = solve_limited ms_simp s' v in report D B r.1.0 r.1.1 (result_of r.0)
