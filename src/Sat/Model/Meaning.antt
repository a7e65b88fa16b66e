-- ===== src/Sat/Model/Meaning.antt =====
-- The check of an assignment against the meaning of a formula.
use dps_pos.Base.{
  ℕ, zero, suc, ◌≡◌, ◌<◌, ◌⊎◌, inl, inr, refl, subst, List, [], ◌∷◌, Bool, true, false, not, Option,
  some, length, get_elem?, ltb, if◌then◌else◌, All, arith, get_elem?-lt_length,
}
use dps_pos.Base.Result.{Result, ok}
use dps_pos.Base.Int.{ℤ, abs}
use dps_pos.Period.Clause.{Clause}
use dps_pos.Sat.Instance.{Instance}
use dps_pos.Sat.Instance.Load.{InVars, IsInstance}
use dps_pos.Sat.Model.{Model, is_positive, value, satisfies_clause, satisfies_clauses, satisfies}

-- The bit of the literal's variable is the literal's sign.
abbrev pub TrueIn : Model → ℤ → Type 0
TrueIn m l = get_elem? m.bits (abs l) ≡ some (is_positive l)

-- One literal of the clause is true.
abbrev pub Solved : Model → Clause → Type 0
Solved m c = (i : ℕ) × (l : ℤ) × (get_elem? c i ≡ some l) × TrueIn m l

-- The answer of a check of `P`.
abbrev pub Decides : Type 0 → Result Bool → Type 0
Decides P r = ((r ≡ ok true) × P) ⊎ ((r ≡ ok false) × (P → ⊥))

value_of :
    (m : Model) (l : ℤ) (b : Bool)
    → 0 < abs l
    → abs l < length m.bits
    → get_elem? m.bits (abs l) ≡ some b
    → value m l ≡ ok (if is_positive l then b else not b)
unfolding value
value_of m l b z h at =
    let low : ltb 0 (abs l) ≡ true = ground arith in
    let high : ltb (abs l) (length m.bits) ≡ true = ground arith in rw low (rw high (rw at refl))

sign_lem :
    (p b : Bool) (x : Option Bool) (r : Result Bool)
    → x ≡ some b
    → r ≡ ok (if p then b else not b)
    → Decides (x ≡ some p) r
sign_lem true true x r h e = inl (e, h)
sign_lem true false x r h e = inr (e, λ k. absurd (cc))
sign_lem false true x r h e = inr (e, λ k. absurd (cc))
sign_lem false false x r h e = inl (e, h)

Solved-cases : (m : Model) (l : ℤ) (c : Clause) → Solved m (l ∷ c) → TrueIn m l ⊎ Solved m c
Solved-cases m l c (zero, l', at, t) = let e : l' ≡ l = cc in inl (subst (TrueIn m) e t)
Solved-cases m l c (suc i, l', at, t) = inr (i, l', at, t)

value-Decides :
    (m : Model) (n : ℕ) (l : ℤ)
    → length m.bits ≡ suc n
    → InVars n l
    → Decides (TrueIn m l) (value m l)
value-Decides m n l len (z, h) =
    let (b, at) = get_elem?-lt_length m.bits (abs l) (omega arith) in
    let run = value_of m l b z (omega arith) at in sign_lem (is_positive l) b _ _ at run

satisfies_clause-Decides :
    (m : Model) (n : ℕ) (c : Clause)
    → length m.bits ≡ suc n
    → All (InVars n) c
    → Decides (Solved m c) (satisfies_clause m c)
unfolding satisfies_clause
satisfies_clause-Decides m n [] len h = inr (refl, λ (i, l, at, t). cc)
satisfies_clause-Decides m n (l ∷ c) len (k, h) = elim (value-Decides m n l len k) [
  | inl (run, t) ↦ inl (rw run refl, (0, l, refl, t))
  | inr (run, wrong) ↦ elim (satisfies_clause-Decides m n c len h) [
    | inl (run', (i, l', at, t)) ↦ inl (rw run run', (suc i, l', at, t))
    | inr (run', none_later) ↦
        inr
          (rw run run', λ s. elim (Solved-cases m l c s) [ inl a ↦ wrong a | inr b ↦ none_later b ])
  ]
]

satisfies_clauses-Decides :
    (m : Model) (n : ℕ) (cs : List Clause)
    → length m.bits ≡ suc n
    → All (All (InVars n)) cs
    → Decides (All (Solved m) cs) (satisfies_clauses m cs)
unfolding satisfies_clauses
satisfies_clauses-Decides m n [] len h = inl (refl, tt)
satisfies_clauses-Decides m n (c ∷ cs) len (k, h) = elim (satisfies_clause-Decides m n c len k) [
  | inl (run, s) ↦ elim (satisfies_clauses-Decides m n cs len h) [
    | inl (run', ss) ↦ inl (rw run run', (s, ss))
    | inr (run', wrong) ↦ inr (rw run run', λ (a, b). wrong b)
  ]
  | inr (run, wrong) ↦ inr (rw run refl, λ (a, b). wrong a)
]

-- A formula that the reader gives, and an assignment to its variables: the check does not fail, and
-- it answers true exactly if each clause has a literal whose variable is assigned the literal's sign.
pub satisfies-IsInstance :
    (m : Model) (i : Instance)
    → IsInstance i
    → length m.bits ≡ suc i.num_vars
    → Decides (All (Solved m) i.clauses) (satisfies m i)
unfolding satisfies
satisfies-IsInstance m i v len = satisfies_clauses-Decides m i.num_vars i.clauses len v.lits

-- The check of a formula over the assignment's variables all of whose clauses have such a literal.
pub satisfies-Solved :
    (m : Model) (i : Instance) (n : ℕ)
    → All (All (InVars n)) i.clauses
    → length m.bits ≡ suc n
    → All (Solved m) i.clauses
    → satisfies m i ≡ ok true
unfolding satisfies
satisfies-Solved m i n lits len h = elim (satisfies_clauses-Decides m n i.clauses len lits) [
  | inl (run, _) ↦ run
  | inr (_, wrong) ↦ absurd (wrong h)
]
