-- ===== src/Simp/Glucose.antt =====
-- DPS-src/solvers/GlucoseWrapper.h and GlucoseWrapper.cpp, and what was added to
-- glucose/glucose-3.0/core/Solver.cc.
use dps_pos.Base.{
  ℕ, ◌+◌, ◌-◌, List, map, Bool, true, not, ◌&&◌, Option, none, some, length, u32, ltb,
  if◌then◌else◌, ◌==◌,
}
use dps_pos.Base.Result.{Result, ok, ◌>>=◌}
use dps_pos.Period.Clause.{Clause}
use dps_pos.Period.Buffer.{ClauseBuffer}
use dps_pos.Period.Buffer
use dps_pos.Parallel.Sharer.{Sharer}
use dps_pos.Sat.Instance.{Instance}
use dps_pos.Sat.Model.{Model}
use dps_pos.Solver.{Doubles, Quantiles, BaseSolver, Solver}
use dps_pos.Solver.Report.{report}
use dps_pos.Simp.{SimpSolver, Lbool, result_of, int_lit, Applied}
use dps_pos.Simp
use dps_pos.Solver.Threshold.{get_lbd_upperbound}

-- The fields that the constructor sets in the library's solver.
pub record Diversity : Type 0 where
  pub seed_offset : ℕ
  pub rand_pick_first_conflict : Bool

unfoldable pub diversify : ℕ → Diversity
diversify id = record { seed_offset = id; rand_pick_first_conflict = not (id == 0) }

-- How a clause of two or more literals is kept.
pub record LearntCalls (k : SimpSolver) : Type 1 where
  pub Ref : Type 0
  pub alloc : List k.Lit → k.State → Ref × k.State
  pub set_lbd : Ref → ℕ → k.State → k.State
  pub push_learnt : Ref → k.State → k.State
  pub attach_clause : Ref → k.State → k.State
  pub bump_activity : Ref → k.State → k.State

-- What the wrapper adds to the class, and the fields of the class that `exportClause` uses.
pub record GlucoseWrapper (Double Dist : Type 0) : Type 0 where
  pub exp_clause_lbd_lim : ℕ
  pub exp_clause_len_lim : ℕ
  pub exp_lbdq_lim : Double
  pub lbd_dist : Dist
  pub exp_clauses_buf : ClauseBuffer

unfoldable pub inc_exp_clause_gen :
    {Double Dist : Type 0} → GlucoseWrapper Double Dist → GlucoseWrapper Double Dist
inc_exp_clause_gen v = record v { exp_clause_lbd_lim = u32 (v.exp_clause_lbd_lim + 1) }

unfoldable pub dec_exp_clause_gen :
    {Double Dist : Type 0} → GlucoseWrapper Double Dist → GlucoseWrapper Double Dist
dec_exp_clause_gen v =
    if ltb 2 v.exp_clause_lbd_lim
    then record v { exp_clause_lbd_lim = v.exp_clause_lbd_lim - 1 }
    else v

module _ (k : SimpSolver) where
  -- `loadFormula`, `getModel` and `applyImportedClauses` are the shared ones.
  unfoldable pub load_formula : Instance → k.State → Result (Bool × k.State)
  load_formula i s = Simp.load_formula k i.clauses s

  unfoldable pub get_model : k.State → Model
  get_model s = Simp.get_model k s

  unfoldable pub store : LearntCalls k → List k.Lit → k.State → k.State
  store n add_tmp s =
      let r = n.alloc add_tmp s in
      n.bump_activity r.0
        (n.attach_clause r.0 (n.push_learnt r.0 (n.set_lbd r.0 (length add_tmp) r.1)))

  unfoldable pub apply_imported_clauses :
      LearntCalls k → List Clause → List Clause → ℕ → ℕ → k.State → Result (Applied k)
  apply_imported_clauses n units clauses imported forced s =
      Simp.apply_imported_clauses k (store n) units clauses imported forced s

module _ (k : SimpSolver) (D : Doubles) (Q : Quantiles D.Double) where
  -- The three guards of `exportClause`; `upper` is `getLBDUpperbound()`.
  unfoldable pub is_skipped : GlucoseWrapper D.Double Q.Dist → D.Double → ℕ → ℕ → Bool
  is_skipped v upper len lbd =
      if ltb 2 lbd && ltb 0 v.exp_clause_len_lim && ltb v.exp_clause_len_lim len
      then true
      else if ltb 0 v.exp_clause_lbd_lim && ltb v.exp_clause_lbd_lim lbd
      then true
      else ltb 2 lbd && D.lt upper (D.of_uint lbd)

  -- `confs` is `getNumConflicts()`.
  unfoldable pub export_clause :
      GlucoseWrapper D.Double Q.Dist → ℕ → List k.Lit → ℕ → GlucoseWrapper D.Double Q.Dist
  export_clause v confs cls lbd =
      let dist = Q.insert lbd v.lbd_dist in
      let upper = get_lbd_upperbound D Q confs v.exp_lbdq_lim dist in
      if is_skipped v upper (length cls) lbd then record v { lbd_dist = dist } else record v {
        lbd_dist = dist;
        exp_clauses_buf = Buffer.add_clause v.exp_clauses_buf (map (int_lit k) cls) (length cls);
      }

-- `solve`. The formula is loaded once: `input_formula` is null afterwards. The search, with all the
-- calls that it makes of the wrapper on its way, is a parameter; its argument says whether to
-- preprocess.
module _ (D : Doubles) (B : BaseSolver) (k : SimpSolver) where
  unfoldable pub load_input : Option Instance → k.State → Result k.State
  load_input none s = ok s
  load_input (some i) s = load_formula k i s >>= λ r. ok r.1

  unfoldable pub solve :
      (Bool
        → k.State
        → Solver D.Double B.State × Sharer
        → Lbool × (Solver D.Double B.State × Sharer))
      → Bool
      → Option Instance
      → k.State
      → Solver D.Double B.State × Sharer
      → Result (Solver D.Double B.State × Sharer)
  solve solve_limited gl_simp input_formula s v = load_input input_formula s >>= λ s'.
      let r = solve_limited gl_simp s' v in report D B r.1.0 r.1.1 (result_of r.0)
