-- ===== src/Simp/Tests.antt =====
-- A small solver that keeps its clauses as they are, and the claims about it.
use dps_pos.Base.{
  ℕ, zero, suc, ◌+◌, ◌-◌, ◌*◌, ◌/◌, ◌≡◌, ◌⊎◌, inl, inr, refl, sym, ap, List, [], ◌∷◌, map, Bool,
  true, false, not, ltb, ◌==◌, arith, All,
}
use dps_pos.Base.Int.{ℤ, pos, negsuc}
use dps_pos.Base.Any.{Any}
use dps_pos.Base.Result.{ok}
use dps_pos.Period.Buffer
use dps_pos.Period.Buffer.{ClauseBuffer}
use dps_pos.Period.Buffer.Contract.{IsBuffer, init-IsBuffer}
use dps_pos.Sat.Instance.{Instance}
use dps_pos.Sat.Instance.Load.{IsInstance}
use dps_pos.Sat.Model.{is_positive, satisfies}
use dps_pos.Solver.{Doubles, Quantiles}
use dps_pos.Solver.Threshold.{get_lbd_upperbound}
use dps_pos.Simp.{
  SimpSolver, l_true, l_undef, int_lit, to_lit, var_of, imported_lit, load_formula, load_lits,
  add_loaded, grow, get_model, Applied, apply_imported_clauses,
}
use dps_pos.Simp.Literals.{LitLaws}
use dps_pos.Simp.Load.{LoadLaws, LitTrue, Loaded, load_formula-Loaded}
use dps_pos.Simp.Load.Answer.{get_model-load_formula}
use dps_pos.Simp.Sound.{ImportLaws, apply_imported_clauses_lem}
use dps_pos.Simp.Glucose.{GlucoseWrapper}
use dps_pos.Simp.Glucose
use dps_pos.Simp.Filter.{Passes, export_clause-Passes}

abbrev Lit : Type 0
Lit = ℕ × Bool

record Kept : Type 0 where
  vars : ℕ
  kept : List (List Lit)

-- Every variable is true in the end.
abbrev keeper : SimpSolver
keeper = record {
  Lit = Lit;
  mk_lit = λ v b. (v, b);
  neg = λ l. (l.0, not l.1);
  var = λ l. l.0;
  sign = λ l. l.1;
  State = Kept;
  n_vars = λ s. s.vars;
  new_var = λ s. record s { vars = suc s.vars };
  add_clause = λ c s. (true, record s { kept = c ∷ s.kept });
  model = λ s v. l_true;
  value = λ l s. l_undef;
  decision_level = λ s. 0;
  cancel_until = λ n s. s;
  is_ok = λ s. true;
  set_not_ok = λ s. s;
  unchecked_enqueue = λ l s. record s { kept = (l ∷ []) ∷ s.kept };
  propagate = λ s. (false, s);
}

keeper-LitLaws : LitLaws keeper
keeper-LitLaws = record {
  var_mk = λ v b. refl;
  sign_mk = λ v b. refl;
  var_neg = λ l. refl;
  sign_neg = λ l. refl;
  same_lit = λ l m e f. λ i. (e i, f i);
}

keeper-LoadLaws : LoadLaws keeper
keeper-LoadLaws = record {
  lits = keeper-LitLaws;
  Models = λ a s. All (Any (LitTrue keeper a)) s.kept;
  new_var_count = λ s. refl;
  new_var_to = λ a s h. h;
  new_var_from = λ a s h. h;
  add_count = λ c s. refl;
  add_to = λ a c s r h x. (refl, (x, h));
  add_from = λ a c s r h. (h.1, h.0);
}

abbrev empty : Kept
empty = record { vars = 0; kept = [] }

abbrev small : Instance
small = record {
  clauses = (pos 2 ∷ negsuc 0 ∷ []) ∷ (pos 1 ∷ []) ∷ [];
  num_vars = 2;
  num_clauses = 2;
  tot_literals = 3;
}

small-IsInstance : IsInstance small
small-IsInstance = record {
  lits = (
    ((omega arith, omega arith), ((omega arith, omega arith), tt)),
    (((omega arith, omega arith), tt), tt),
  );
  vars_fit = omega arith;
  count = refl;
  total = refl;
}

load_formula-Loaded_example :
    (r : Bool × Kept) × (load_formula keeper small.clauses empty ≡ ok r)
    × Loaded keeper-LoadLaws small.clauses empty r
load_formula-Loaded_example =
    load_formula-Loaded keeper-LoadLaws small.clauses empty
      ((omega arith, (omega arith, tt)), ((omega arith, tt), tt))

abbrev after_load : Kept
after_load = record { vars = 2; kept = ((0, false) ∷ []) ∷ ((1, false) ∷ (0, true) ∷ []) ∷ [] }

loads : load_formula keeper small.clauses empty ≡ ok (true, after_load)
unfolding load_formula load_lits add_loaded grow to_lit
loads = refl

get_model-load_formula_example : satisfies (get_model keeper after_load) small ≡ ok true
unfolding keeper-LoadLaws
get_model-load_formula_example =
    get_model-load_formula keeper-LoadLaws small empty after_load after_load small-IsInstance loads
      refl (inl refl, (inl refl, tt))

-- All that is kept holds where all variables are true, and so do the imported clauses.
keeper-ImportLaws : ImportLaws keeper (λ c s. record s { kept = c ∷ s.kept })
unfolding imported_lit
keeper-ImportLaws = record {
  Solution = Unit;
  True = λ a n. is_positive n ≡ true;
  Holds = λ a l. l.1 ≡ false;
  Sound = λ s. All (Any (λ l. l.1 ≡ false)) s.kept;
  lit_same = λ n l e a h. same n l e h;
  lit_var = λ n l e. same_var n l e;
  cancel_vars = λ s. refl;
  enqueue_vars = λ l s. refl;
  propagate_vars = λ s. refl;
  store_vars = λ c s. refl;
  not_ok_vars = λ s. refl;
  cancel_sound = λ s v. v;
  cancel_level = λ s. refl;
  value_false = λ l s v z e a h. cc;
  enqueue_sound = λ l s v h. (inl (h tt), v);
  enqueue_level = λ l s. refl;
  propagate_sound = λ s v. v;
  propagate_level = λ s. refl;
  propagate_conflict = λ s v z e a. cc;
  store_sound = λ c s v h. (h tt, v);
  store_level = λ c s. refl;
  not_ok_sound = λ s v h. v;
  not_ok_level = λ s. refl;
  ok_sound = λ s v e a. cc;
}
  where
    same : (n : ℤ) (l : Lit) → imported_lit keeper n ≡ ok l → is_positive n ≡ true → l.1 ≡ false
    same (pos zero) l e h = absurd (cc)
    same (pos (suc v)) l e h = let x : (v, false) ≡ l = cc in ap (λ y. y.1) (sym x)
    same (negsuc v) l e h = absurd (cc)

    same_var : (n : ℤ) (l : Lit) → imported_lit keeper n ≡ ok l → l.0 ≡ var_of n
    same_var (pos zero) l e = absurd (cc)
    same_var (pos (suc v)) l e =
        let x : (v, false) ≡ l = cc in let y : l.0 ≡ v = ap (λ y. y.0) (sym x) in omega (arith, y)
    same_var (negsuc v) l e = let x : (v, true) ≡ l = cc in ap (λ y. y.0) (sym x)

abbrev two_vars : Kept
two_vars = record { vars = 2; kept = [] }

apply_imported_clauses_lem_example :
    (r : Applied keeper) × (apply_imported_clauses keeper
        (λ c s. record s { kept = c ∷ s.kept })
        ((pos 1 ∷ []) ∷ [])
        ((negsuc 0 ∷ pos 2 ∷ []) ∷ [])
        0
        0
        two_vars
      ≡ ok r)
    × All (Any (λ (l : Lit). l.1 ≡ false)) r.solver.kept
    × ((r.ret ≡ true) ⊎ (keeper-ImportLaws.Solution → ⊥))
unfolding keeper-ImportLaws
apply_imported_clauses_lem_example =
    apply_imported_clauses_lem keeper-ImportLaws ((pos 1 ∷ []) ∷ []) ((negsuc 0 ∷ pos 2 ∷ []) ∷ [])
      0 0 two_vars ((((omega arith, omega arith), tt), λ a. inl refl), tt)
      ((((omega arith, omega arith), ((omega arith, omega arith), tt)), λ a. inr (inl refl)), tt) tt

-- Numbers in place of floating-point numbers, and a quantile that is always 5.
abbrev numbers : Doubles
numbers = record {
  Double = ℕ;
  of_uint = λ n. n;
  to_uint = λ n. n;
  one = 1;
  add = λ a b. a + b;
  sub = λ a b. a - b;
  mul = λ a b. a * b;
  div = λ a b. a / b;
  lt = ltb;
  eq = λ a b. a == b;
}

abbrev fives : Quantiles ℕ
fives = record { Dist = ℕ; insert = λ n d. d + n; result = λ d q. 5 }

abbrev wrapper : GlucoseWrapper ℕ ℕ
wrapper = record {
  exp_clause_lbd_lim = 7;
  exp_clause_len_lim = 24;
  exp_lbdq_lim = 0;
  lbd_dist = 0;
  exp_clauses_buf = Buffer.init;
}

abbrev exported : ClauseBuffer
exported =
    (Glucose.export_clause keeper numbers fives wrapper 2000 ((0, true) ∷ []) 4).exp_clauses_buf

export_clause-Passes_example :
    IsBuffer exported
    × ((Passes keeper numbers fives wrapper (get_lbd_upperbound numbers fives 2000 0 4) 1 4
          × (exported ≡ Buffer.add_clause Buffer.init (map (int_lit keeper) ((0, true) ∷ [])) 1))
        ⊎ ((Passes keeper numbers fives wrapper (get_lbd_upperbound numbers fives 2000 0 4) 1 4 → ⊥)
            × (exported ≡ Buffer.init)))
export_clause-Passes_example =
    export_clause-Passes keeper numbers fives wrapper 2000 ((0, true) ∷ []) 4 init-IsBuffer
