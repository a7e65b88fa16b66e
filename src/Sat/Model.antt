-- ===== src/Sat/Model.antt =====
-- DPS-src/sat/Model.h and Model.cpp: an assignment, and the check that it solves a formula.
pub mod Meaning
pub mod Print
use dps_pos.Base.{
  ℕ, suc, ◌+◌, List, [], ◌∷◌, Bool, true, false, not, ◌&&◌, none, some, length, get_elem?,
  replicate, ltb, if◌then◌else◌,
}
use dps_pos.Base.Result.{Result, ok, fault, ◌>>=◌}
use dps_pos.Base.Int.{ℤ, pos, negsuc, abs}
use dps_pos.Period.Clause.{Clause}
use dps_pos.Sat.Instance.{Instance}

-- The bit at index 0 is not used.
pub record Model : Type 0 where
  pub num_vars : ℕ
  pub bits : List Bool

unfoldable pub init : ℕ → Model
init vars = record { num_vars = vars; bits = replicate (vars + 1) false }

abbrev pub is_positive : ℤ → Bool
is_positive (pos n) = ltb 0 n
is_positive (negsuc n) = false

-- With the `assert` on the variable.
unfoldable pub value : Model → ℤ → Result Bool
value m lit =
    if ltb 0 (abs lit) && ltb (abs lit) (length m.bits)
    then elim (get_elem? m.bits (abs lit)) [
      | none ↦ fault
      | some b ↦ ok (if is_positive lit then b else not b)
    ]
    else fault

unfoldable pub satisfies_clause : Model → Clause → Result Bool
satisfies_clause m [] = ok false
satisfies_clause m (lit ∷ c) =
    let rest = satisfies_clause m c in value m lit >>= λ b. if b then ok true else rest

satisfies_clauses : Model → List Clause → Result Bool
satisfies_clauses m [] = ok true
satisfies_clauses m (c ∷ cs) =
    let rest = satisfies_clauses m cs in satisfies_clause m c >>= λ b. if b then rest else ok false

unfoldable pub satisfies : Model → Instance → Result Bool
unfolding satisfies_clauses
satisfies m i = satisfies_clauses m i.clauses
