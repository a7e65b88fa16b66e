-- ===== src/Solver/Kissat/Tests.antt =====
-- A small solver, for a formula whose only solution makes variable 1 true and no other one.
use dps_pos.Base.{
  ℕ, ◌≡◌, ◌⊎◌, Option, sym, ◌∙◌, refl, List, [], ◌∷◌, Bool, true, false, not, some, All, arith,
  ◌==◌, if◌then◌else◌, inl, inr,
}
use dps_pos.Base.Result.{ok}
use dps_pos.Base.Int.{ℤ, pos, negsuc}
use dps_pos.Solver.Kissat.{Kissat, Applied, apply_imported_clauses}
use dps_pos.Solver.Kissat.Sound.{Laws}
use dps_pos.Solver.Kissat.Apply.{apply_imported_clauses-Sound}

abbrev is_true : ℤ → Bool
is_true (pos n) = n == 1
is_true (negsuc n) = not (n == 0)

-- The internal literal 1 is the true one, and 0 is known to be false. The state is the units learned.
abbrev two_literals : Kissat
two_literals = record {
  State = List ℕ;
  inconsistent = λ s. false;
  level = λ s. 1;
  backtrack = λ n s. s;
  import_literal = λ l s. (some (if is_true l then 1 else 0), s);
  eliminated = λ i s. false;
  fixed = λ i s. if i == 0 then negsuc 0 else pos 0;
  learned_unit = λ i s. i ∷ s;
  search_propagate = λ s. s;
  new_redundant_clause = λ is n s. s;
}

only_true : (l : ℤ) (i : ℕ) → some (if is_true l then 1 else 0) ≡ some i → is_true l ≡ true → i ≡ 1
only_true l i e t =
    let one : Option ℕ = some 1 in
    let is_one : some (if is_true l then 1 else 0) ≡ one = rw t refl in
    let both : some i ≡ one = sym e ∙ is_one in cc

two_literals-Laws : Laws two_literals
two_literals-Laws = record {
  Solution = Unit;
  True = λ a l. is_true l ≡ true;
  Holds = λ a i. i ≡ 1;
  Sound = λ s. All (λ i. i ≡ 1) s;
  backtrack_sound = λ n s v. v;
  import_sound = λ l s v. v;
  import_same = λ l s i e a t. only_true l i e t;
  fixed_false = λ i s v e a h. ground arith;
  unit_sound = λ i s v h. (h tt, v);
  propagate_sound = λ s v. v;
  clause_sound = λ is n s v h. v;
  inconsistent_sound = λ s v e a. cc;
}

-- The unit 1, and the clause of -1 and 1.
apply_imported_clauses-Sound_example :
    (r : Applied two_literals × ℕ) × (apply_imported_clauses two_literals
        ((pos 1 ∷ []) ∷ [])
        ((negsuc 0 ∷ pos 1 ∷ []) ∷ [])
        0
        0
        []
      ≡ ok r)
    × All (λ i. i ≡ 1) r.0.solver
    × ((r.0.ret ≡ true) ⊎ (two_literals-Laws.Solution → ⊥))
unfolding two_literals-Laws
apply_imported_clauses-Sound_example =
    apply_imported_clauses-Sound two_literals-Laws ((pos 1 ∷ []) ∷ [])
      ((negsuc 0 ∷ pos 1 ∷ []) ∷ []) 0 0 [] ((((refl, tt), λ a. inl refl), refl), tt)
      (((refl, (refl, tt)), λ a. inr (inl refl)), tt) tt
