-- ===== src/Solver/KissatWrapper/Calls/Fed.antt =====
-- What Kissat is fed with is the formula, clause by clause.
use dps_pos.Base.{
  ℕ, ◌≡◌, ◌<◌, ◌≤◌, refl, sym, ap, ◌∙◌, List, [], ◌∷◌, ◌++◌, true, append-nil, append_assoc, All,
  All-imp, arith,
}
use dps_pos.Base.Int.{ℤ, pos, abs}
use dps_pos.Base.Result.{Result, ok}
use dps_pos.Period.Clause.{Clause}
use dps_pos.Sat.Instance.{Instance}
use dps_pos.Sat.Instance.Load.{IsInstance}
use dps_pos.Solver.Kissat.{external_max_var}
use dps_pos.Solver.KissatWrapper.Calls.{KissatInput, add_literals, add_clauses, load_formula}

-- `kissat_add` takes the literals of a clause one by one, and 0 ends the clause. Neither call aborts
-- on variables up to the largest that Kissat accepts.
pub record FeedLaws (k : KissatInput) : Type 1 where
  pub clauses : k.State → List Clause
  pub pending : k.State → Clause
  pub reserve_keeps :
      (n : ℕ) (s : k.State)
      → n ≤ external_max_var
      → (t : k.State) × (k.reserve n s ≡ ok t) × (clauses t ≡ clauses s) × (pending t ≡ pending s)
  pub add_literal :
      (n : ℤ) (s : k.State)
      → 0 < abs n
      → abs n ≤ external_max_var
      → (t : k.State) × (k.add n s ≡ ok t)
        × (clauses t ≡ clauses s)
        × (pending t ≡ pending s ++ (n ∷ []))
  pub add_end :
      (s : k.State)
      → (t : k.State) × (k.add (pos 0) s ≡ ok t)
        × (clauses t ≡ clauses s ++ (pending s ∷ []))
        × (pending t ≡ [])

-- The literals that Kissat accepts.
abbrev Accepted : Clause → Type 0
Accepted c = All (λ n. (0 < abs n) × (abs n ≤ external_max_var)) c

module _ {k : KissatInput} (w : FeedLaws k) where
  open w use {clauses, pending}

  -- The call comes to its end with these clauses and literals.
  Fed : Result k.State → List Clause → Clause → Type 0
  Fed x cs c = (t : k.State) × (x ≡ ok t) × (clauses t ≡ cs) × (pending t ≡ c)

  add_literals_lem :
      (c : Clause) (s : k.State)
      → Accepted c
      → Fed (add_literals k c s) (clauses s) (pending s ++ c)
  unfolding add_literals Fed
  add_literals_lem [] s h = (s, refl, refl, sym (append-nil _))
  add_literals_lem (n ∷ c) s ((z, low), zs) =
      let (t, run_t, cs_t, p_t) = w.add_literal n s z low in
      let (u, run_u, cs_u, p_u) = add_literals_lem c t zs in
      (
        u,
        rw run_t run_u,
        cs_u ∙ cs_t,
        p_u ∙ ap (λ x. x ++ c) p_t ∙ append_assoc (pending s) (n ∷ []) c,
      )

  add_clauses_lem :
      (cs : List Clause) (s : k.State)
      → All Accepted cs
      → pending s ≡ []
      → Fed (add_clauses k cs s) (clauses s ++ cs) []
  unfolding add_clauses Fed
  add_clauses_lem [] s h e = (s, refl, sym (append-nil _), e)
  add_clauses_lem (c ∷ cs) s (z, zs) e =
      let (t, run_t, cs_t, p_t) = add_literals_lem c s z in
      let (u, run_u, cs_u, p_u) = w.add_end t in
      let (v, run_v, cs_v, p_v) = add_clauses_lem cs u zs p_u in
      (
        v,
        rw run_t (rw run_u run_v),
        cs_v
            ∙ ap (λ x. x ++ cs) cs_u
            ∙ append_assoc (clauses t) (pending t ∷ []) cs
            ∙ ap (λ x. x ++ (pending t ∷ cs)) cs_t
            ∙ ap (λ x. clauses s ++ (x ∷ cs)) (p_t ∙ ap (λ x. x ++ c) e),
        p_v,
      )

  -- A solver that is in the middle of no clause and is given a formula of the reader, with no more
  -- variables than Kissat accepts, 2 ^ 28 - 1: the call does not abort. The solver then has what it
  -- had and the formula's clauses, in their order, and is in the middle of no clause.
  pub load_formula-fed :
      (i : Instance) (s : k.State)
      → IsInstance i
      → i.num_vars ≤ external_max_var
      → pending s ≡ []
      → (t : k.State) × (load_formula k i s ≡ ok (i.num_vars, true, t))
        × (clauses t ≡ clauses s ++ i.clauses)
        × (pending t ≡ [])
  unfolding load_formula Fed
  load_formula-fed i s v few e =
      let accepted : All Accepted i.clauses =
        All-imp (λ c x. All-imp (λ l y. (y.0, omega (arith, y.1, few))) c x) i.clauses v.lits in
      let (t, run_t, cs_t, p_t) = w.reserve_keeps i.num_vars s few in
      let (u, run_u, cs_u, p_u) = add_clauses_lem i.clauses t accepted (p_t ∙ e) in
      (u, rw run_t (rw run_u refl), cs_u ∙ ap (λ x. x ++ i.clauses) cs_t, p_u)
