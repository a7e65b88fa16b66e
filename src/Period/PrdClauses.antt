-- ===== src/Period/PrdClauses.antt =====
-- DPS-src/period/PrdClauses.h and PrdClauses.cpp: the clauses that one thread exports in one
-- period. Each method holds its mutex for all that it reads and writes, so it is one step here.
use dps_pos.Base.{ℕ, ◌+◌, List, [], ◌∷◌, ◌++◌, Bool, true, false, length, u64, if◌then◌else◌}
use dps_pos.Base.Result.{Result, ok, fault}
use dps_pos.Period.Clause.{Clause}

pub record PrdClauses : Type 0 where
  pub thn : ℕ
  pub prd : ℕ
  pub prd_len : ℕ
  pub num_literals : ℕ
  pub clauses : List Clause
  pub num_exported_threads : ℕ
  pub completed : Bool

unfoldable pub init : ℕ → ℕ → PrdClauses
init thread_id period = record {
  thn = thread_id;
  prd = period;
  prd_len = 0;
  num_literals = 0;
  clauses = [];
  num_exported_threads = 0;
  completed = false;
}

-- A set that is completed takes no more clauses: the `assert` of `addClause`.
unfoldable pub add_clause : PrdClauses → Clause → Result PrdClauses
add_clause p c =
    if p.completed
    then fault
    else ok (record p {
      clauses = p.clauses ++ (c ∷ []);
      num_literals = u64 (p.num_literals + length c);
    })

unfoldable pub complete_addition : PrdClauses → ℕ → Result PrdClauses
complete_addition p len =
    if p.completed then fault else ok (record p { completed = true; prd_len = len })

unfoldable pub complete_exportation : PrdClauses → PrdClauses
complete_exportation p = record p { num_exported_threads = p.num_exported_threads + 1 }
