-- ===== src/Sat/Tests.antt =====
-- A small file, its formula, and an assignment.
use dps_pos.Base.{ℕ, ◌≡◌, ◌⊎◌, inl, refl, List, [], ◌∷◌, true, false, All, arith}
use dps_pos.Base.Result.{ok}
use dps_pos.Base.Int.{pos, negsuc}
use dps_pos.Sat.Instance.{
  Instance, loaded, overflow, no_result, skip_line, read_digits, take_number, read_formula,
  load_formula,
}
use dps_pos.Sat.Instance.Scan.{TooLarge}
use dps_pos.Sat.Instance.Load.{IsInstance, load_formula-IsInstance, load_formula_stuck}
use dps_pos.Sat.Model.{Model, value, satisfies_clause, satisfies}
use dps_pos.Sat.Model.Meaning.{Solved, Decides, satisfies-IsInstance}

-- "p 2 1", and "12 -2 0" on a line of its own, and "1 0"
abbrev file : List ℕ
file = 112 ∷ 32 ∷ 50 ∷ 10 ∷ 49 ∷ 50 ∷ 32 ∷ 45 ∷ 50 ∷ 32 ∷ 48 ∷ 10 ∷ 49 ∷ 32 ∷ 48 ∷ 10 ∷ []

abbrev formula : Instance
formula = record {
  clauses = (pos 12 ∷ negsuc 1 ∷ []) ∷ (pos 1 ∷ []) ∷ [];
  num_vars = 12;
  num_clauses = 2;
  tot_literals = 3;
}

reads : load_formula 20 file ≡ loaded formula
unfolding load_formula read_formula skip_line read_digits take_number
reads = refl

load_formula-IsInstance_example :
    ((load_formula 20 file ≡ overflow) × TooLarge file)
    ⊎ ((i : Instance) × (load_formula 20 file ≡ loaded i) × IsInstance i)
load_formula-IsInstance_example = load_formula-IsInstance 20 file (omega arith) refl

load_formula_stuck_example : load_formula 50 (99 ∷ 32 ∷ 120 ∷ []) ≡ no_result
load_formula_stuck_example =
    load_formula_stuck 50 99 (32 ∷ 120 ∷ []) (inl refl) (omega arith, (omega arith, tt))

-- Variable 1 is true, and no other one.
abbrev assignment : Model
assignment = record { num_vars = 2; bits = false ∷ true ∷ false ∷ [] }

abbrev small : Instance
small = record {
  clauses = (pos 2 ∷ negsuc 1 ∷ []) ∷ (pos 1 ∷ []) ∷ [];
  num_vars = 2;
  num_clauses = 2;
  tot_literals = 3;
}

small-IsInstance : IsInstance small
small-IsInstance = record {
  lits = (
    ((omega arith, omega arith), ((omega arith, omega arith), tt)),
    (((omega arith, omega arith), tt), tt),
  );
  vars_fit = omega arith;
  count = refl;
  total = refl;
}

solves : satisfies assignment small ≡ ok true
unfolding satisfies satisfies_clause value
solves = refl

satisfies-IsInstance_example :
    Decides (All (Solved assignment) small.clauses) (satisfies assignment small)
satisfies-IsInstance_example = satisfies-IsInstance assignment small small-IsInstance refl
