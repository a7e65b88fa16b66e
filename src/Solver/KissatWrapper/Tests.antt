-- ===== src/Solver/KissatWrapper/Tests.antt =====
-- The assignment of a small formula.
use dps_pos.Base.{ℕ, ◌≡◌, refl, [], ◌∷◌, true, ◌==◌, if◌then◌else◌, arith}
use dps_pos.Base.Result.{ok}
use dps_pos.Base.Int.{ℤ, pos, negsuc}
use dps_pos.Sat.Instance.{Instance}
use dps_pos.Sat.Instance.Load.{IsInstance}
use dps_pos.Sat.Model.{satisfies}
use dps_pos.Solver.KissatWrapper.{get_model, get_model-satisfies}

abbrev small : Instance
small = record {
  clauses = (pos 2 ∷ negsuc 0 ∷ []) ∷ (pos 2 ∷ []) ∷ [];
  num_vars = 2;
  num_clauses = 2;
  tot_literals = 3;
}

small-IsInstance : IsInstance small
small-IsInstance = record {
  lits = (
    ((omega arith, omega arith), ((omega arith, omega arith), tt)),
    (((omega arith, omega arith), tt), tt),
  );
  vars_fit = omega arith;
  count = refl;
  total = refl;
}

-- Variable 1 is false, and 2 is true.
abbrev values : ℕ → ℤ
values v = if v == 1 then negsuc 0 else pos v

get_model-satisfies_example : satisfies (get_model 2 values) small ≡ ok true
get_model-satisfies_example =
    get_model-satisfies values small small-IsInstance
      ((1, negsuc 0, refl, (omega arith, refl)), ((0, pos 2, refl, (omega arith, refl)), tt))
