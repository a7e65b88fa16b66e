-- ===== src/Simp/Load/Answer.antt =====
-- The model that a wrapper reads off its solver passes the check of the formula that was loaded.
use dps_pos.Base.{
  ℕ, zero, suc, ◌+◌, ◌≡◌, ◌<◌, ◌≤◌, inl, inr, refl, sym, ap, subst, ◌∙◌, List, [], ◌∷◌, Bool, true,
  false, some, length, get_elem?, replicate, ◌==◌, ◌≢◌, Bool-cases, All, All-imp, arith, length-set,
  length-replicate, get_elem?-set_self, get_elem?-set_ne, get_elem?-replicate,
}
use dps_pos.Base.Int.{ℤ, pos, negsuc, abs}
use dps_pos.Base.Any.{Any}
use dps_pos.Base.Result.{ok}
use dps_pos.Period.Clause.{Clause}
use dps_pos.Sat.Instance.{Instance}
use dps_pos.Sat.Instance.Load.{InVars, IsInstance}
use dps_pos.Sat.Model
use dps_pos.Sat.Model.{Model, satisfies}
use dps_pos.Sat.Model.Meaning.{Solved, satisfies-Solved}
use dps_pos.Simp.{
  SimpSolver, Lbool, l_true, l_false, l_undef, load_formula, fill_model, set_value, get_model,
  var_of,
}
use dps_pos.Simp.Load.{LoadLaws, IntTrue, load_formula-Loaded}

abbrev pub is_l_true : Lbool → Bool
is_l_true l_true = true
is_l_true l_false = false
is_l_true l_undef = false

set_value-length :
    (b : Lbool) (i : ℕ) (bits : List Bool) → length (set_value b i bits) ≡ length bits
unfolding set_value
set_value-length l_true i bits = length-set bits i true
set_value-length l_false i bits = length-set bits i false
set_value-length l_undef i bits = refl

set_value_other :
    (b : Lbool) (i j : ℕ) (bits : List Bool)
    → i ≢ j
    → get_elem? (set_value b i bits) j ≡ get_elem? bits j
unfolding set_value
set_value_other l_true i j bits h = get_elem?-set_ne bits i j true h
set_value_other l_false i j bits h = get_elem?-set_ne bits i j false h
set_value_other l_undef i j bits h = refl

set_value_self :
    (b : Lbool) (i : ℕ) (bits : List Bool)
    → i < length bits
    → get_elem? bits i ≡ some false
    → get_elem? (set_value b i bits) i ≡ some (is_l_true b)
unfolding set_value
set_value_self l_true i bits h e = get_elem?-set_self bits i true h
set_value_self l_false i bits h e = get_elem?-set_self bits i false h
set_value_self l_undef i bits h e = e

in_vars : (n : ℤ) (k : ℕ) → 0 < abs n → var_of n < k → InVars k n
in_vars (pos n) k z h = (z, omega arith)
in_vars (negsuc n) k z h = (z, omega arith)

abs-var_of : (n : ℤ) → 0 < abs n → abs n ≡ suc (var_of n)
abs-var_of (pos n) h = omega arith
abs-var_of (negsuc n) h = refl

module _ (k : SimpSolver) where
  open k use {State, n_vars, model}

  length-fill_model :
      (s : State) (i left : ℕ) (bits : List Bool)
      → length (fill_model k s i left bits) ≡ length bits
  unfolding fill_model
  length-fill_model s i zero bits = refl
  length-fill_model s i (suc left) bits =
      length-fill_model s (suc i) left _ ∙ set_value-length (model s i) (i + 1) bits

  fill_before :
      (s : State) (i left j : ℕ) (bits : List Bool)
      → j ≤ i
      → get_elem? (fill_model k s i left bits) j ≡ get_elem? bits j
  unfolding fill_model
  fill_before s i zero j bits h = refl
  fill_before s i (suc left) j bits h =
      fill_before s (suc i) left j _ (omega arith)
      ∙ set_value_other (model s i) (i + 1) j bits (λ e. omega (arith, e))

  fill_at :
      (s : State) (i left j : ℕ) (bits : List Bool)
      → i ≤ j
      → j < i + left
      → suc j < length bits
      → get_elem? bits (suc j) ≡ some false
      → get_elem? (fill_model k s i left bits) (suc j) ≡ some (is_l_true (model s j))
  unfolding fill_model
  fill_at s i zero j bits low high len e = absurd (omega arith)
  fill_at s i (suc left) j bits low high len e = elim (Bool-cases (i == j)) [
    | inl same ↦
        let q : i ≡ j = ground arith in
        let one : j + 1 ≡ suc j = omega arith in
        rw q (
          fill_before s (suc j) left (suc j) _ (omega arith)
          ∙ rw one (set_value_self (model s j) (suc j) bits len e))
    | inr other ↦
        fill_at s (suc i) left j (set_value (model s i) (i + 1) bits) (ground arith) (omega arith)
          (omega (arith, set_value-length (model s i) (i + 1) bits))
          (set_value_other (model s i) (i + 1) (suc j) bits (λ x. ground (arith, x)) ∙ e)
  ]

  length-get_model : (t : State) → length (get_model k t).bits ≡ suc (n_vars t)
  unfolding get_model Model.init
  length-get_model t = omega (
    arith,
    length-fill_model t 0 (n_vars t) (replicate (n_vars t + 1) false),
    length-replicate {A = Bool} (n_vars t + 1) false,
  )

  get_model_bit :
      (t : State) (v : ℕ)
      → v < n_vars t
      → get_elem? (get_model k t).bits (suc v) ≡ some (is_l_true (model t v))
  unfolding get_model Model.init
  get_model_bit t v h =
      fill_at t 0 (n_vars t) v (replicate (n_vars t + 1) false) (omega arith) (omega arith)
        (omega (arith, length-replicate {A = Bool} (n_vars t + 1) false))
        (get_elem?-replicate (n_vars t + 1) false (suc v) (omega arith))

  clause_Solved :
      (t : State) (c : Clause)
      → All (λ n. 0 < abs n) c
      → All (λ n. var_of n < n_vars t) c
      → Any (IntTrue (λ v. is_l_true (model t v))) c
      → Solved (get_model k t) c
  clause_Solved t [] z h x = absurd x
  clause_Solved t (n ∷ c) (z, zs) (h, hs) (inl x) = (
    0,
    n,
    refl,
    ap (get_elem? (get_model k t).bits) (abs-var_of n z) ∙ get_model_bit t (var_of n) h ∙ ap some x,
  )
  clause_Solved t (n ∷ c) (z, zs) (h, hs) (inr x) =
      let (i, l, at, v) = clause_Solved t c zs hs x in (suc i, l, at, v)

  clause-InVars :
      (t : State) (c : Clause)
      → All (λ n. 0 < abs n) c
      → All (λ n. var_of n < n_vars t) c
      → All (InVars (n_vars t)) c
  clause-InVars t [] z h = tt
  clause-InVars t (n ∷ c) (z, zs) (h, hs) = (in_vars n (n_vars t) z h, clause-InVars t c zs hs)

  pub clauses_Solved :
      (t : State) (cs : List Clause)
      → All (All (λ n. 0 < abs n)) cs
      → All (All (λ n. var_of n < n_vars t)) cs
      → All (Any (IntTrue (λ v. is_l_true (model t v)))) cs
      → All (All (InVars (n_vars t))) cs × All (Solved (get_model k t)) cs
  clauses_Solved t [] z h x = (tt, tt)
  clauses_Solved t (c ∷ cs) (z, zs) (h, hs) (x, xs) =
      let (a, b) = clauses_Solved t cs zs hs xs in
      ((clause-InVars t c z h, a), (clause_Solved t c z h x, b))

module _ {k : SimpSolver} (w : LoadLaws k) where
  open k use {State, n_vars, model}
  open w use {Models}

  -- A formula that the reader gives was loaded into the solver `s`, which then was `s'`. The state
  -- `t` that the search ends in has the same variables. If the values there satisfy what `s'`
  -- holds, then the model that the wrapper makes of them passes the check of the formula.
  pub get_model-load_formula :
      (i : Instance) (s s' t : State)
      → IsInstance i
      → load_formula k i.clauses s ≡ ok (true, s')
      → n_vars t ≡ n_vars s'
      → Models (λ v. is_l_true (model t v)) s'
      → satisfies (get_model k t) i ≡ ok true
  get_model-load_formula i s s' t v run same m =
      let nonzero : All (All (λ n. 0 < abs n)) i.clauses =
        All-imp (λ c x. All-imp (λ l y. y.0) c x) i.clauses v.lits in
      let (r, run', d) = load_formula-Loaded w i.clauses s nonzero in
      let both : ok r ≡ ok (true, s') = sym run' ∙ run in
      let loaded : r ≡ (true, s') = cc in
      let fine : r.0 ≡ true = ap (λ x. x.0) loaded in
      let there : All (All (λ n. var_of n < n_vars t)) i.clauses =
        All-imp (λ c x. All-imp (λ l y. omega (arith, y, same, ap (λ x. n_vars x.1) loaded)) c x)
          i.clauses (d.made fine) in
      let (_, sat) =
        d.from _ fine (subst (λ x. Models (λ v. is_l_true (model t v)) x.1) (sym loaded) m) in
      let (vars, solved) = clauses_Solved k t i.clauses nonzero there sat in
      satisfies-Solved (get_model k t) i (n_vars t) vars (length-get_model k t) solved
