-- ===== src/Solver/Kissat.antt =====
-- DPS-src/solvers/DPS_C_API.cpp and kissat/kissat-sc2021/src/dps_api.c: a Kissat solver takes the
-- clauses over that its thread has imported.
--
-- Kissat itself is a parameter: the calls of it on its state. The stack `solver->clause` is empty
-- between two calls, and is an argument here.
pub mod Sound
pub mod Apply
mod Tests
use dps_pos.Base.{
  ℕ, zero, suc, ◌+◌, ◌-◌, ◌^◌, List, [], ◌∷◌, ◌++◌, Bool, true, false, Option, none, some, length,
  u64, leb, ltb, ◌==◌, ◌&&◌, if◌then◌else◌,
}
use dps_pos.Base.Int.{ℤ, pos, negsuc, abs}
use dps_pos.Base.Result.{Result, ok, fault, ◌>>=◌}
use dps_pos.Period.Clause.{Clause}

-- `import_literal` gives no literal where Kissat gives INVALID_LIT.
pub record Kissat : Type 1 where
  pub State : Type 0
  pub inconsistent : State → Bool
  pub level : State → ℕ
  pub backtrack : ℕ → State → State
  pub import_literal : ℤ → State → Option ℕ × State
  pub eliminated : ℕ → State → Bool
  pub fixed : ℕ → State → ℤ
  pub learned_unit : ℕ → State → State
  pub search_propagate : State → State
  pub new_redundant_clause : List ℕ → ℕ → State → State

-- The values 1, 0 and -1.
pub data Added : Type 0 where
  satisfied : Added
  added : Added
  conflict : Added

-- What is done with the literal of a clause.
pub data Use : Type 0 where
  stop : Use
  skip : Use
  push : (ilit : ℕ) → Use

-- `EXTERNAL_MAX_VAR`
abbrev pub external_max_var : ℕ
external_max_var = 2 ^ 28 - 1

-- `kissat_require_valid_external_internal`: not INT_MIN and no variable that is too large, on which
-- Kissat aborts in every build; and not 0, which is an assertion.
abbrev pub is_valid : ℤ → Bool
is_valid lit = ltb 0 (abs lit) && leb (abs lit) external_max_var

abbrev pub is_negative : ℤ → Bool
is_negative (pos n) = false
is_negative (negsuc n) = true

abbrev pub is_above_zero : ℤ → Bool
is_above_zero (pos n) = ltb 0 n
is_above_zero (negsuc n) = false

module _ (k : Kissat) where
  open k use {
    State, inconsistent, level, backtrack, import_literal, eliminated, fixed, learned_unit,
    search_propagate, new_redundant_clause,
  }

  -- The tests on the value of an internal literal.
  unfoldable pub use_value : ℕ → State → Use
  use_value ilit s =
      if eliminated ilit s
      then stop
      else if is_above_zero (fixed ilit s)
      then stop
      else if is_negative (fixed ilit s)
      then skip
      else push ilit

  unfoldable pub use_import : Option ℕ × State → Use × State
  use_import (none, s) = (stop, s)
  use_import (some ilit, s) = (use_value ilit s, s)

  -- `inconsistent ? -1 : 0`
  abbrev pub outcome : State → Added × State
  outcome s = (if inconsistent s then conflict else added, s)

  unfoldable pub unit_use : Use × State → Added × State
  unit_use (stop, s) = (satisfied, s)
  unit_use (skip, s) = (conflict, s)
  unit_use (push ilit, s) = outcome (search_propagate (learned_unit ilit s))

  unfoldable pub add_imported_unit_clause : ℤ → State → Result (Added × State)
  add_imported_unit_clause elit s =
      if inconsistent s
      then ok (conflict, s)
      else if is_valid elit
      then ok (unit_use (use_import (import_literal elit s)))
      else fault

  -- One round of the loop over a clause's literals, where `next` goes on. The result is the stack,
  -- unless the loop is left early.
  unfoldable pub push_use :
      Use × State
      → List ℕ
      → (List ℕ → State → Result (Option (List ℕ) × State))
      → Result (Option (List ℕ) × State)
  push_use (stop, s) stack next = ok (none, s)
  push_use (skip, s) stack next = next stack s
  push_use (push ilit, s) stack next = next (stack ++ (ilit ∷ [])) s

  unfoldable pub push_literals : Clause → List ℕ → State → Result (Option (List ℕ) × State)
  push_literals [] stack s = ok (some stack, s)
  push_literals (elit ∷ c) stack s =
      if is_valid elit
      then push_use (use_import (import_literal elit s)) stack (push_literals c)
      else fault

  -- After the loop, by the size of the stack.
  unfoldable pub add_stack : Option (List ℕ) × State → Added × State
  add_stack (none, s) = (satisfied, s)
  add_stack (some [], s) = (conflict, s)
  add_stack (some (ilit ∷ []), s) = outcome (search_propagate (learned_unit ilit s))
  add_stack (some (ilit ∷ jlit ∷ lits), s) =
      outcome (new_redundant_clause (ilit ∷ jlit ∷ lits) (suc (length lits)) s)

  unfoldable pub add_imported_clause : Clause → State → Result (Added × State)
  add_imported_clause c s =
      if inconsistent s then ok (conflict, s) else (push_literals c [] s >>= λ r. ok (add_stack r))

  -- The state of the solver, the number of imported clauses and the return value.
  pub record Applied : Type 0 where
    pub solver : State
    pub num_imported_clauses : ℕ
    pub ret : Bool

  -- One round of either loop, where `next` goes on.
  unfoldable pub after_clause : ℕ → Added × State → (ℕ → State → Result Applied) → Result Applied
  after_clause n (satisfied, s) next = next n s
  after_clause n (added, s) next = next (u64 (n + 1)) s
  after_clause n (conflict, s) next =
      ok (record { solver = s; num_imported_clauses = u64 (n + 1); ret = false })

  unfoldable pub apply_units : List Clause → ℕ → State → Result Applied
  apply_units [] n s = ok (record { solver = s; num_imported_clauses = n; ret = true })
  apply_units ([] ∷ cs) n s = fault
  apply_units ((lit ∷ c) ∷ cs) n s =
      add_imported_unit_clause lit s >>= λ r. after_clause n r (apply_units cs)

  unfoldable pub apply_clauses : List Clause → ℕ → State → Result Applied
  apply_clauses [] n s = ok (record { solver = s; num_imported_clauses = n; ret = true })
  apply_clauses (c ∷ cs) n s = add_imported_clause c s >>= λ r. after_clause n r (apply_clauses cs)

  -- The second loop runs after a conflict of the first one too; then it does not change `ret` to
  -- true. `n` and `forced` are the wrapper's counters. The imported clauses are moved out of the
  -- wrapper: they are arguments.
  unfoldable pub apply_imported_clauses :
      List Clause → List Clause → ℕ → ℕ → State → Result (Applied × ℕ)
  apply_imported_clauses units clauses n forced s =
      let forced' = if ltb 0 (level s) then u64 (forced + 1) else forced in
      let s' = if ltb 0 (level s) then backtrack 0 s else s in
      apply_units units n s' >>= λ u. apply_clauses clauses u.num_imported_clauses u.solver >>= λ v.
      ok (record v { ret = if u.ret then v.ret else false }, forced')
