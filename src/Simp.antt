-- ===== src/Simp.antt =====
-- What the wrappers of MiniSat, Glucose and MapleCOMSPS have in common: the translation of literals,
-- loading a formula, reading a model, and taking imported clauses over. The source repeats this text
-- for each of the three; the functions here are MiniSat's, and the child modules MiniSat, Glucose and
-- MapleComsps say what is the same there and what is not.
--
-- The libraries themselves are a parameter, the record `SimpSolver` of the calls that are made.
pub mod Literals
pub mod Load
pub mod Sound
pub mod MiniSat
pub mod Glucose
pub mod MapleComsps
pub mod Filter
mod Tests
use dps_pos.Base.{
  ℕ, zero, suc, ◌+◌, ◌-◌, List, [], ◌∷◌, ◌++◌, Bool, true, false, Option, none, some, length, set,
  u64, ltb, leb, if◌then◌else◌,
}
use dps_pos.Base.Int.{ℤ, pos, negsuc}
use dps_pos.Base.Result.{Result, ok, fault, ◌>>=◌}
use dps_pos.Period.Clause.{Clause}
use dps_pos.Parallel.Sharer.{SatResult, sat, unsat, unknown}
use dps_pos.Sat.Model.{Model}
use dps_pos.Sat.Model

-- `l_True`, `l_False` and `l_Undef`
pub data Lbool : Type 0 where
  l_true l_false l_undef : Lbool

-- Where a call returns a value too, it is the first of the pair. `propagate` says whether it has
-- found a conflict.
pub record SimpSolver : Type 1 where
  pub Lit : Type 0
  pub mk_lit : ℕ → Bool → Lit
  pub neg : Lit → Lit
  pub var : Lit → ℕ
  pub sign : Lit → Bool
  pub State : Type 0
  pub n_vars : State → ℕ
  pub new_var : State → State
  pub add_clause : List Lit → State → Bool × State
  pub model : State → ℕ → Lbool
  pub value : Lit → State → Lbool
  pub decision_level : State → ℕ
  pub cancel_until : ℕ → State → State
  pub is_ok : State → Bool
  pub set_not_ok : State → State
  pub unchecked_enqueue : Lit → State → State
  pub propagate : State → Bool × State

-- `solve`: the value that the search returns, as a result.
unfoldable pub result_of : Lbool → SatResult
result_of l_true = sat
result_of l_false = unsat
result_of l_undef = unknown

-- One round of the loop of `getModel`: a variable without a value keeps what is there.
unfoldable pub set_value : Lbool → ℕ → List Bool → List Bool
set_value l_true i bits = set bits i true
set_value l_false i bits = set bits i false
set_value l_undef i bits = bits

-- `abs(n) - 1`, for a literal other than 0.
abbrev pub var_of : ℤ → ℕ
var_of (pos n) = n - 1
var_of (negsuc n) = n

module _ (k : SimpSolver) where
  open k use {
    Lit, mk_lit, neg, var, sign, State, n_vars, new_var, add_clause, model, value, decision_level,
    cancel_until, is_ok, set_not_ok, unchecked_enqueue, propagate,
  }

  -- `INT_LIT`
  unfoldable pub int_lit : Lit → ℤ
  int_lit l = if sign l then negsuc (var l) else pos (suc (var l))

  -- `n > 0 ? mkLit(v) : ~mkLit(v)`. The variable of literal 0 would be -1; a clause has no such literal.
  unfoldable pub to_lit : ℤ → Result Lit
  to_lit (pos zero) = fault
  to_lit (pos (suc v)) = ok (mk_lit v false)
  to_lit (negsuc v) = ok (neg (mk_lit v false))

  -- `while (v >= solver->nVars()) solver->newVar();` without enough fuel there is no result.
  unfoldable pub grow : ℕ → ℕ → State → Result State
  grow zero v s = fault
  grow (suc fuel) v s =
      let rest = grow fuel v (new_var s) in if leb (n_vars s) v then rest else ok s

  -- The loop over a clause's literals. The fuel is one more than there are variables to make.
  unfoldable pub load_lits : Clause → List Lit → State → Result (List Lit × State)
  load_lits [] c s = ok (c, s)
  load_lits (n ∷ clause) c s = do
    s' ← grow (suc (suc (var_of n))) (var_of n) s
    l ← to_lit n
    load_lits clause (c ++ (l ∷ [])) s'

  -- One round of the loop over the clauses, where `next` goes on.
  unfoldable pub add_loaded :
      List Lit × State → (State → Result (Bool × State)) → Result (Bool × State)
  add_loaded (c, s) next = let r = add_clause c s in if r.0 then next r.1 else ok (false, r.1)

  unfoldable pub load_formula : List Clause → State → Result (Bool × State)
  load_formula [] s = ok (true, s)
  load_formula (clause ∷ clauses) s =
      load_lits clause [] s >>= λ r. add_loaded r (load_formula clauses)

  -- The loop of `getModel`, over `left` variables from `i` on.
  unfoldable pub fill_model : State → ℕ → ℕ → List Bool → List Bool
  fill_model s i zero bits = bits
  fill_model s i (suc left) bits = fill_model s (suc i) left (set_value (model s i) (i + 1) bits)

  unfoldable pub get_model : State → Model
  get_model s =
      let m = Model.init (n_vars s) in record m { bits = fill_model s 0 (n_vars s) m.bits }

  -- `n > 0 ? mkLit(n-1, false) : mkLit(-n-1, true)`
  unfoldable pub imported_lit : ℤ → Result Lit
  imported_lit (pos zero) = fault
  imported_lit (pos (suc v)) = ok (mk_lit v false)
  imported_lit (negsuc v) = ok (mk_lit v true)

  -- One literal of an imported clause: it is left out, the clause is, or it is pushed.
  unfoldable pub push_lit :
      Lit → Lbool → List Lit → (List Lit → Result (Option (List Lit))) → Result (Option (List Lit))
  push_lit l l_false add_tmp next = next add_tmp
  push_lit l l_true add_tmp next = ok none
  push_lit l l_undef add_tmp next = next (add_tmp ++ (l ∷ []))

  -- The loop of `applyImportedClause`; no stack if a literal is true. `value` reads the array of the
  -- values at the literal's variable, without a test whether the solver has that variable.
  unfoldable pub push_lits : Clause → List Lit → State → Result (Option (List Lit))
  push_lits [] add_tmp s = ok (some add_tmp)
  push_lits (n ∷ clause) add_tmp s = imported_lit n >>= λ l.
      if ltb (var l) (n_vars s)
      then push_lit l (value l s) add_tmp (λ t. push_lits clause t s)
      else fault

  -- The counter of the imported clauses stands in the wrapper. `store` keeps a clause of two or more
  -- literals.
  unfoldable pub apply_stack :
      (List Lit → State → State) → Option (List Lit) → ℕ → State → Bool × ℕ × State
  apply_stack store none n s = (true, n, s)
  apply_stack store (some []) n s = (false, n, set_not_ok s)
  apply_stack store (some (l ∷ [])) n s =
      let r = propagate (unchecked_enqueue l s) in (if r.0 then false else true, u64 (n + 1), r.1)
  apply_stack store (some (l ∷ m ∷ lits)) n s = (true, u64 (n + 1), store (l ∷ m ∷ lits) s)

  unfoldable pub apply_imported_clause :
      (List Lit → State → State) → Clause → ℕ → State → Result (Bool × ℕ × State)
  apply_imported_clause store clause n s =
      push_lits clause [] s >>= λ r. ok (apply_stack store r n s)

  -- One round of either loop of `applyImportedClauses`, where `next` goes on.
  unfoldable pub after_clause :
      Bool × ℕ × State → (ℕ → State → Result (ℕ × State)) → Result (ℕ × State)
  after_clause (added, n, s) next = if added then next n s else ok (n, set_not_ok s)

  unfoldable pub apply_all :
      (List Lit → State → State) → List Clause → ℕ → State → Result (ℕ × State)
  apply_all store [] n s = ok (n, s)
  apply_all store (c ∷ cs) n s =
      apply_imported_clause store c n s >>= λ r. after_clause r (apply_all store cs)

  -- What the call leaves: the return value, the wrapper's counters and the solver.
  pub record Applied : Type 0 where
    pub ret : Bool
    pub num_imported_clauses : ℕ
    pub num_forced_applications : ℕ
    pub solver : State

  -- Both vectors are empty afterwards; they are arguments here.
  unfoldable pub apply_imported_clauses :
      (List Lit → State → State) → List Clause → List Clause → ℕ → ℕ → State → Result Applied
  apply_imported_clauses store units clauses n forced s =
      let above = ltb 0 (decision_level s) in
      let s' = if above then cancel_until 0 s else s in
      apply_all store units n s' >>= λ r. apply_all store clauses r.0 r.1 >>= λ t. ok (record {
        ret = is_ok t.1;
        num_imported_clauses = t.0;
        num_forced_applications = if above then u64 (forced + 1) else forced;
        solver = t.1;
      })
