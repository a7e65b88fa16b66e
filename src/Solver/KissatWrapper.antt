-- ===== src/Solver/KissatWrapper.antt =====
-- DPS-src/solvers/KissatWrapper.cpp: the assignment that a Kissat solver has found.
--
-- `value` is `kissat_value`, a parameter: positive, negative, or 0 for a variable without a value.
pub mod Calls
pub mod Setup
mod Tests
use dps_pos.Base.{
  ℕ, zero, suc, ◌+◌, ◌≡◌, ◌≢◌, ◌<◌, ◌≤◌, ◌⊎◌, inl, inr, refl, sym, ap, ◌∙◌, subst, List, [], ◌∷◌,
  Bool, true, false, some, length, get_elem?, set, replicate, ltb, ◌==◌, if◌then◌else◌, All,
  All-imp, arith, Bool-cases, length-set, length-replicate, get_elem?-set_self, get_elem?-set_ne,
}
use dps_pos.Base.Result.{ok}
use dps_pos.Base.Int.{ℤ, pos, negsuc, abs}
use dps_pos.Period.Clause.{Clause}
use dps_pos.Sat.Instance.{Instance}
use dps_pos.Sat.Instance.Load.{IsInstance, InVars}
use dps_pos.Sat.Model
use dps_pos.Sat.Model.{Model, is_positive, satisfies}
use dps_pos.Sat.Model.Meaning.{Solved, TrueIn, satisfies-IsInstance}

-- The loop over `left` variables from `var` on.
unfoldable pub fill : (ℕ → ℤ) → ℕ → ℕ → List Bool → List Bool
fill value var zero bits = bits
fill value var (suc left) bits =
    fill value (suc var) left
      (if abs (value var) == 0 then bits else set bits var (is_positive (value var)))

unfoldable pub get_model : ℕ → (ℕ → ℤ) → Model
get_model num_vars value =
    let m = Model.init num_vars in record m { bits = fill value 1 num_vars m.bits }

-- The solver gives the literal's variable the literal's sign.
abbrev pub Assigned : (ℕ → ℤ) → ℤ → Type 0
Assigned value l = (0 < abs (value (abs l))) × (is_positive (value (abs l)) ≡ is_positive l)

length-fill :
    (value : ℕ → ℤ) (var left : ℕ) (bits : List Bool)
    → length (fill value var left bits) ≡ length bits
unfolding fill
length-fill value var zero bits = refl
length-fill value var (suc left) bits = elim (Bool-cases (abs (value var) == 0)) [
  | inl free ↦ rw free (length-fill value (suc var) left bits)
  | inr given ↦ rw given (
      length-fill value (suc var) left (set bits var (is_positive (value var)))
      ∙ length-set bits var _)
]

fill_before :
    (value : ℕ → ℤ) (var left v : ℕ) (bits : List Bool)
    → v < var
    → get_elem? (fill value var left bits) v ≡ get_elem? bits v
unfolding fill
fill_before value var zero v bits h = refl
fill_before value var (suc left) v bits h = elim (Bool-cases (abs (value var) == 0)) [
  | inl free ↦ rw free (fill_before value (suc var) left v bits (omega arith))
  | inr given ↦ rw given (
      fill_before value (suc var) left v (set bits var (is_positive (value var))) (omega arith)
      ∙ get_elem?-set_ne bits var v _ (λ e. absurd (omega (arith, e))))
]

fill_at :
    (value : ℕ → ℤ) (var left v : ℕ) (bits : List Bool)
    → var ≤ v
    → v < var + left
    → v < length bits
    → 0 < abs (value v)
    → get_elem? (fill value var left bits) v ≡ some (is_positive (value v))
unfolding fill
fill_at value var zero v bits low high len z = absurd (omega arith)
fill_at value var (suc left) v bits low high len z = elim (Bool-cases (var == v)) [
  | inl same ↦
      let e : var ≡ v = ground arith in
      let given : (abs (value v) == 0) ≡ false = ground arith in
      rw e (
        rw given (
          fill_before value (suc v) left v (set bits v (is_positive (value v))) (omega arith)
          ∙ get_elem?-set_self bits v _ len))
  | inr other ↦ elim (Bool-cases (abs (value var) == 0)) [
    | inl free ↦ rw free (fill_at value (suc var) left v bits (ground arith) (omega arith) len z)
    | inr given ↦ rw given (
        fill_at value (suc var) left v (set bits var (is_positive (value var))) (ground arith)
          (omega arith) (omega (arith, length-set bits var (is_positive (value var)))) z)
  ]
]

All-get_elem? :
    (P : ℤ → Type 0) (c : Clause) (i : ℕ) (l : ℤ) → All P c → get_elem? c i ≡ some l → P l
All-get_elem? P [] i l h e = cc
All-get_elem? P (x ∷ c) zero l (h, _) e = let k : x ≡ l = cc in subst P k h
All-get_elem? P (x ∷ c) (suc i) l (_, h) e = All-get_elem? P c i l h e

Assigned-Solved :
    (value : ℕ → ℤ) (n : ℕ) (c : Clause)
    → All (InVars n) c
    → (i : ℕ) × (l : ℤ) × (get_elem? c i ≡ some l) × Assigned value l
    → Solved (get_model n value) c
unfolding get_model Model.init
Assigned-Solved value n c h (i, l, at, (z, sign)) =
    let (low, high) = All-get_elem? (InVars n) c i l h at in
    let len = length-replicate {A = Bool} (n + 1) false in
    (
      i,
      l,
      at,
      fill_at value 1 n (abs l) (replicate (n + 1) false) (omega arith) (omega arith)
            (omega (arith, len)) z
          ∙ ap some sign,
    )

both_All :
    (value : ℕ → ℤ) (n : ℕ) (cs : List Clause)
    → All (All (InVars n)) cs
    → All (λ c. (i : ℕ) × (l : ℤ) × (get_elem? c i ≡ some l) × Assigned value l) cs
    → All (Solved (get_model n value)) cs
both_All value n [] h k = tt
both_All value n (c ∷ cs) (h, hs) (k, ks) =
    (Assigned-Solved value n c h k, both_All value n cs hs ks)

length-get_model : (value : ℕ → ℤ) (n : ℕ) → length (get_model n value).bits ≡ suc n
unfolding get_model Model.init
length-get_model value n = omega (
  arith,
  length-fill value 1 n (replicate (n + 1) false),
  length-replicate {A = Bool} (n + 1) false,
)

-- If the solver has given a value to a literal of each clause of a formula that the reader gives, and
-- made it true, then the assignment that the wrapper builds passes the check.
pub get_model-satisfies :
    (value : ℕ → ℤ) (i : Instance)
    → IsInstance i
    → All (λ c. (j : ℕ) × (l : ℤ) × (get_elem? c j ≡ some l) × Assigned value l) i.clauses
    → satisfies (get_model i.num_vars value) i ≡ ok true
get_model-satisfies value i v h =
    elim (satisfies-IsInstance (get_model i.num_vars value) i v
      (length-get_model value i.num_vars)) [
        | inl (run, _) ↦ run
        | inr (_, not_all) ↦ absurd (not_all (both_All value i.num_vars i.clauses v.lits h))
      ]
