-- ===== src/Simp/MapleComsps.antt =====
-- DPS-src/solvers/MapleCOMSPSWrapper.h and MapleCOMSPSWrapper.cpp, and what was added to
-- mcomsps/MapleCOMSPS_LRB_VSIDS_2_no_drup/MapleCOMSPS_LRB_VSIDS_2/core/Solver.cc.
use dps_pos.Base.{
  ℕ, ◌%◌, List, map, Bool, true, false, not, ◌&&◌, Option, none, some, length, ltb, leb,
  if◌then◌else◌, ◌==◌,
}
use dps_pos.Base.Result.{Result, ok, ◌>>=◌}
use dps_pos.Period.Clause.{Clause}
use dps_pos.Period.Buffer.{ClauseBuffer}
use dps_pos.Period.Buffer
use dps_pos.Parallel.Sharer.{Sharer}
use dps_pos.Sat.Instance.{Instance}
use dps_pos.Sat.Model.{Model}
use dps_pos.Solver.{Doubles, Quantiles, BaseSolver, Solver}
use dps_pos.Solver.Report.{report}
use dps_pos.Simp.{SimpSolver, Lbool, result_of, int_lit, Applied}
use dps_pos.Simp
use dps_pos.Solver.Threshold.{get_lbd_upperbound}

-- The fields that the constructor sets in the library's solver.
pub record Diversity : Type 0 where
  pub seed_offset : ℕ
  pub rand_pick_until_1st_conf : Bool
  pub vsids : Bool
  pub pick_strict : Bool

unfoldable pub diversify : ℕ → Diversity
diversify id = record {
  seed_offset = id;
  rand_pick_until_1st_conf = not (id == 0);
  vsids = if not (id % 2 == 0) then false else true;
  pick_strict = if leb 2 (id % 4) then false else true;
}

pub data Mark : Type 0 where
  core tier2 : Mark

-- How a clause of two or more literals is kept.
pub record LearntCalls (k : SimpSolver) : Type 1 where
  pub Ref : Type 0
  pub core_lbd_cut : k.State → ℕ
  pub conflicts : k.State → ℕ
  pub alloc : List k.Lit → k.State → Ref × k.State
  pub set_lbd : Ref → ℕ → k.State → k.State
  pub push_core : Ref → k.State → k.State
  pub push_tier2 : Ref → k.State → k.State
  pub push_local : Ref → k.State → k.State
  pub set_mark : Ref → Mark → k.State → k.State
  pub set_touched : Ref → ℕ → k.State → k.State
  pub attach_clause : Ref → k.State → k.State
  pub bump_activity : Ref → k.State → k.State

-- What the wrapper adds to the class, and the fields of the class that `exportClause` uses.
pub record MapleWrapper (Double Dist : Type 0) : Type 0 where
  pub exp_clause_lbd_lim : Double
  pub exp_clause_len_lim : ℕ
  pub exp_lbdq_lim : Double
  pub lbd_dist : Dist
  pub exp_clauses_buf : ClauseBuffer

module _ (k : SimpSolver) where
  -- `loadFormula`, `getModel` and `applyImportedClauses` are the shared ones.
  unfoldable pub load_formula : Instance → k.State → Result (Bool × k.State)
  load_formula i s = Simp.load_formula k i.clauses s

  unfoldable pub get_model : k.State → Model
  get_model s = Simp.get_model k s

  -- By the number of literals, which stands for the LBD.
  unfoldable pub sort_learnt : (n : LearntCalls k) → n.Ref → ℕ → k.State → k.State
  sort_learnt n cr lbd s =
      if leb lbd (n.core_lbd_cut s)
      then n.set_mark cr core (n.push_core cr s)
      else if leb lbd 6
      then n.set_touched cr (n.conflicts s) (n.set_mark cr tier2 (n.push_tier2 cr s))
      else n.bump_activity cr (n.push_local cr s)

  unfoldable pub store : LearntCalls k → List k.Lit → k.State → k.State
  store n add_tmp s =
      let r = n.alloc add_tmp s in
      let lbd = length add_tmp in
      n.attach_clause r.0 (sort_learnt n r.0 lbd (n.set_lbd r.0 lbd r.1))

  unfoldable pub apply_imported_clauses :
      LearntCalls k → List Clause → List Clause → ℕ → ℕ → k.State → Result (Applied k)
  apply_imported_clauses n units clauses imported forced s =
      Simp.apply_imported_clauses k (store n) units clauses imported forced s

module _ (k : SimpSolver) (D : Doubles) (Q : Quantiles D.Double) where
  open D use {Double, of_uint, one, add, sub, div, lt}

  unfoldable pub inc_exp_clause_gen : MapleWrapper Double Q.Dist → MapleWrapper Double Q.Dist
  inc_exp_clause_gen v = record v {
    exp_clause_lbd_lim = add v.exp_clause_lbd_lim (div one v.exp_clause_lbd_lim);
  }

  -- `std::max(2.0, x)` is 2.0 unless it is less than `x`.
  unfoldable pub dec_exp_clause_gen : MapleWrapper Double Q.Dist → MapleWrapper Double Q.Dist
  dec_exp_clause_gen v =
      let lim = sub v.exp_clause_lbd_lim one in
      record v { exp_clause_lbd_lim = if lt (of_uint 2) lim then lim else of_uint 2 }

  -- The three guards of `exportClause`; `upper` is `getLBDUpperbound()`.
  unfoldable pub is_skipped : MapleWrapper Double Q.Dist → Double → ℕ → ℕ → Bool
  is_skipped v upper len lbd =
      if ltb 2 lbd && ltb 0 v.exp_clause_len_lim && ltb v.exp_clause_len_lim len
      then true
      else if lt (of_uint 0) v.exp_clause_lbd_lim && lt v.exp_clause_lbd_lim (of_uint lbd)
      then true
      else ltb 2 lbd && lt upper (of_uint lbd)

  -- `confs` is `getNumConflicts()`.
  unfoldable pub export_clause :
      MapleWrapper Double Q.Dist → ℕ → List k.Lit → ℕ → MapleWrapper Double Q.Dist
  export_clause v confs cls lbd =
      let dist = Q.insert lbd v.lbd_dist in
      let upper = get_lbd_upperbound D Q confs v.exp_lbdq_lim dist in
      if is_skipped v upper (length cls) lbd then record v { lbd_dist = dist } else record v {
        lbd_dist = dist;
        exp_clauses_buf = Buffer.add_clause v.exp_clauses_buf (map (int_lit k) cls) (length cls);
      }

-- `solve`. The formula is loaded once: `input_formula` is null afterwards. The search, with all the
-- calls that it makes of the wrapper on its way, is a parameter; its argument says whether to
-- preprocess.
module _ (D : Doubles) (B : BaseSolver) (k : SimpSolver) where
  unfoldable pub load_input : Option Instance → k.State → Result k.State
  load_input none s = ok s
  load_input (some i) s = load_formula k i s >>= λ r. ok r.1

  unfoldable pub solve :
      (Bool
        → k.State
        → Solver D.Double B.State × Sharer
        → Lbool × (Solver D.Double B.State × Sharer))
      → Bool
      → Option Instance
      → k.State
      → Solver D.Double B.State × Sharer
      → Result (Solver D.Double B.State × Sharer)
  solve solve_limited mc_simp input_formula s v = load_input input_formula s >>= λ s'.
      let r = solve_limited mc_simp s' v in report D B r.1.0 r.1.1 (result_of r.0)
