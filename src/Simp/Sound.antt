-- ===== src/Simp/Sound.antt =====
-- Taking imported clauses over is sound in the MiniSat-like solvers too, because it is done at
-- decision level 0.
use dps_pos.Base.{
  ℕ, zero, suc, ◌+◌, ◌≡◌, ◌<◌, ◌≤◌, ◌⊎◌, inl, inr, refl, ◌∙◌, List, [], ◌∷◌, ◌++◌, Bool, true,
  false, Option, none, some, u64, ltb, if◌then◌else◌, All, arith, Bool-cases,
}
use dps_pos.Base.Int.{ℤ, pos, negsuc, abs}
use dps_pos.Base.Any.{Any, Any-append}
use dps_pos.Base.Result.{Result, ok}
use dps_pos.Period.Clause.{Clause}
use dps_pos.Simp.{
  SimpSolver, Lbool, l_true, l_false, l_undef, var_of, imported_lit, push_lit, push_lits,
  apply_stack, apply_imported_clause, after_clause, apply_all, Applied, apply_imported_clauses,
}

-- What the code relies on in the libraries. `Solution` is the type of the assignments that satisfy
-- the input formula, `True` and `Holds` say when one makes a number and a literal true, and `Sound s`
-- that what the solver holds follows from the formula. A value says something of all solutions at
-- decision level 0 only. No call here changes the number of variables.
pub record ImportLaws (k : SimpSolver) (store : List k.Lit → k.State → k.State) : Type 1 where
  pub Solution : Type 0
  pub True : Solution → ℤ → Type 0
  pub Holds : Solution → k.Lit → Type 0
  pub Sound : k.State → Type 0
  pub lit_same :
      (n : ℤ) (l : k.Lit) → imported_lit k n ≡ ok l → (a : Solution) → True a n → Holds a l
  pub lit_var : (n : ℤ) (l : k.Lit) → imported_lit k n ≡ ok l → k.var l ≡ var_of n
  pub cancel_vars : (s : k.State) → k.n_vars (k.cancel_until 0 s) ≡ k.n_vars s
  pub enqueue_vars : (l : k.Lit) (s : k.State) → k.n_vars (k.unchecked_enqueue l s) ≡ k.n_vars s
  pub propagate_vars : (s : k.State) → k.n_vars (k.propagate s).1 ≡ k.n_vars s
  pub store_vars : (c : List k.Lit) (s : k.State) → k.n_vars (store c s) ≡ k.n_vars s
  pub not_ok_vars : (s : k.State) → k.n_vars (k.set_not_ok s) ≡ k.n_vars s
  pub cancel_sound : (s : k.State) → Sound s → Sound (k.cancel_until 0 s)
  pub cancel_level : (s : k.State) → k.decision_level (k.cancel_until 0 s) ≡ 0
  pub value_false :
      (l : k.Lit) (s : k.State)
      → Sound s
      → k.decision_level s ≡ 0
      → k.value l s ≡ l_false
      → (a : Solution) → Holds a l
      → ⊥
  pub enqueue_sound :
      (l : k.Lit) (s : k.State)
      → Sound s
      → ((a : Solution) → Holds a l)
      → Sound (k.unchecked_enqueue l s)
  pub enqueue_level :
      (l : k.Lit) (s : k.State) → k.decision_level (k.unchecked_enqueue l s) ≡ k.decision_level s
  pub propagate_sound : (s : k.State) → Sound s → Sound (k.propagate s).1
  pub propagate_level : (s : k.State) → k.decision_level (k.propagate s).1 ≡ k.decision_level s
  pub propagate_conflict :
      (s : k.State) → Sound s → k.decision_level s ≡ 0 → (k.propagate s).0 ≡ true → Solution → ⊥
  pub store_sound :
      (c : List k.Lit) (s : k.State)
      → Sound s
      → ((a : Solution) → Any (Holds a) c)
      → Sound (store c s)
  pub store_level :
      (c : List k.Lit) (s : k.State) → k.decision_level (store c s) ≡ k.decision_level s
  pub not_ok_sound : (s : k.State) → Sound s → (Solution → ⊥) → Sound (k.set_not_ok s)
  pub not_ok_level : (s : k.State) → k.decision_level (k.set_not_ok s) ≡ k.decision_level s
  pub ok_sound : (s : k.State) → Sound s → k.is_ok s ≡ false → Solution → ⊥

module _ {k : SimpSolver} {store : List k.Lit → k.State → k.State} (w : ImportLaws k store) where
  open k use {
    Lit, var, State, n_vars, value, decision_level, cancel_until, set_not_ok, unchecked_enqueue,
    propagate, is_ok,
  }
  open w use {Solution, True, Holds, Sound}

  -- A sound state at level 0, with the variables below `vars`.
  Root : ℕ → State → Type 0
  Root vars s = Sound s × (decision_level s ≡ 0) × (n_vars s ≡ vars)

  abbrev pub Follows : Clause → Type 0
  Follows c = (a : Solution) → Any (True a) c

  -- The clause has neither the literal 0 nor one of a variable above `vars`.
  abbrev pub Translated : ℕ → Clause → Type 0
  Translated vars c = All (λ n. (0 < abs n) × (abs n ≤ vars)) c

  some_lit : (n : ℤ) → 0 < abs n → (l : Lit) × (imported_lit k n ≡ ok l)
  unfolding imported_lit
  some_lit (pos zero) h = absurd (omega arith)
  some_lit (pos (suc v)) h = (_, refl)
  some_lit (negsuc v) h = (_, refl)

  var_of_less : (n : ℤ) (vars : ℕ) → 0 < abs n → abs n ≤ vars → var_of n < vars
  var_of_less (pos zero) vars z h = absurd (omega arith)
  var_of_less (pos (suc v)) vars z h = omega (arith, h)
  var_of_less (negsuc v) vars z h = omega (arith, h)

  abbrev StackMeans : Option (List Lit) → Type 0
  StackMeans none = Unit
  StackMeans (some c) = (a : Solution) → Any (Holds a) c

  StackSound : Result (Option (List Lit)) → Type 0
  StackSound x = (r : Option (List Lit)) × (x ≡ ok r) × StackMeans r

  push_lit_lem :
      (n : ℤ) (c : Clause) (l : Lit) (v : Lbool) (add_tmp : List Lit) (vars : ℕ) (s : State)
      → (next : List Lit → Result (Option (List Lit))) → Root vars s
      → imported_lit k n ≡ ok l
      → value l s ≡ v
      → ((a : Solution) → Any (Holds a) add_tmp ⊎ Any (True a) (n ∷ c))
      → ((t : List Lit) → ((a : Solution) → Any (Holds a) t ⊎ Any (True a) c) → StackSound (next t))
      → StackSound (push_lit k l v add_tmp next)
  unfolding push_lit StackSound Root
  push_lit_lem n c l l_false add_tmp vars s next (so, lv, nv) e q h go = go add_tmp (λ a.
      elim (h a) [
        | inl x ↦ inl x
        | inr x ↦ elim x [
          | inl t ↦ absurd (w.value_false l s so lv q a (w.lit_same n l e a t))
          | inr t ↦ inr t
        ]
      ])
  push_lit_lem n c l l_true add_tmp vars s next r e q h go = (none, refl, tt)
  push_lit_lem n c l l_undef add_tmp vars s next r e q h go = go (add_tmp ++ (l ∷ [])) (λ a.
      elim (h a) [
        | inl x ↦ inl (Any-append (Holds a) add_tmp (l ∷ []) (inl x))
        | inr x ↦ elim x [
          | inl t ↦ inl (Any-append (Holds a) add_tmp (l ∷ []) (inr (inl (w.lit_same n l e a t))))
          | inr t ↦ inr t
        ]
      ])

  push_lits_lem :
      (c : Clause) (add_tmp : List Lit) (vars : ℕ) (s : State)
      → Root vars s
      → Translated vars c
      → ((a : Solution) → Any (Holds a) add_tmp ⊎ Any (True a) c)
      → StackSound (push_lits k c add_tmp s)
  unfolding push_lits StackSound Root
  push_lits_lem [] add_tmp vars s r z h =
      (some add_tmp, refl, λ a. elim (h a) [ inl x ↦ x | inr x ↦ absurd x ])
  push_lits_lem (n ∷ c) add_tmp vars s r ((z, below), zs) h =
      let (l, e) = some_lit n z in
      let v = w.lit_var n l e in
      let few = var_of_less n vars z below in
      let count = r.2 in
      let there : ltb (var l) (n_vars s) ≡ true = ground arith in
      rw e (
        rw there (
          push_lit_lem n c l (value l s) add_tmp vars s (λ t. push_lits k c t s) r e refl h
            (λ t h'. push_lits_lem c t vars s r zs h')))

  -- A sound state, and an answer that is false only if the formula has no solution.
  abbrev AnswerSound : ℕ → Bool × ℕ × State → Type 0
  AnswerSound vars r = Root vars r.2 × ((r.0 ≡ true) ⊎ (Solution → ⊥))

  apply_stack_lem :
      (r : Option (List Lit)) (n vars : ℕ) (s : State)
      → Root vars s
      → StackMeans r
      → AnswerSound vars (apply_stack k store r n s)
  unfolding apply_stack Root
  apply_stack_lem none n vars s v m = (v, inl refl)
  apply_stack_lem (some []) n vars s (so, lv, nv) m =
      ((w.not_ok_sound s so m, w.not_ok_level s ∙ lv, w.not_ok_vars s ∙ nv), inr m)
  apply_stack_lem (some (l ∷ [])) n vars s (so, lv, nv) m =
      let s1 = unchecked_enqueue l s in
      let so1 = w.enqueue_sound l s so (λ a. elim (m a) [ inl x ↦ x | inr x ↦ absurd x ]) in
      let lv1 = w.enqueue_level l s ∙ lv in
      let nv1 = w.enqueue_vars l s ∙ nv in
      (
        (w.propagate_sound s1 so1, w.propagate_level s1 ∙ lv1, w.propagate_vars s1 ∙ nv1),
        elim (Bool-cases (propagate s1).0) [
          | inl clash ↦ inr (w.propagate_conflict s1 so1 lv1 clash)
          | inr fine ↦ inl (rw fine refl)
        ],
      )
  apply_stack_lem (some (l ∷ j ∷ c)) n vars s (so, lv, nv) m = (
    (
      w.store_sound (l ∷ j ∷ c) s so m,
      w.store_level (l ∷ j ∷ c) s ∙ lv,
      w.store_vars (l ∷ j ∷ c) s ∙ nv,
    ),
    inl refl,
  )

  abbrev AllSound : ℕ → Result (ℕ × State) → Type 0
  AllSound vars x = (r : ℕ × State) × (x ≡ ok r) × Root vars r.1

  after_clause_lem :
      (vars : ℕ) (r : Bool × ℕ × State) (next : ℕ → State → Result (ℕ × State))
      → AnswerSound vars r
      → ((n : ℕ) (s : State) → Root vars s → AllSound vars (next n s))
      → AllSound vars (after_clause k r next)
  unfolding after_clause Root
  after_clause_lem vars (true, n, s) next (v, a) go = go n s v
  after_clause_lem vars (false, n, s) next ((so, lv, nv), a) go = (
    _,
    refl,
    (
      w.not_ok_sound s so (elim a [ inl e ↦ absurd (cc) | inr x ↦ x ]),
      w.not_ok_level s ∙ lv,
      w.not_ok_vars s ∙ nv,
    ),
  )

  apply_all_lem :
      (cs : List Clause) (n vars : ℕ) (s : State)
      → Root vars s
      → All (λ c. Translated vars c × Follows c) cs
      → AllSound vars (apply_all k store cs n s)
  unfolding apply_all apply_imported_clause StackSound
  apply_all_lem [] n vars s v h = (_, refl, v)
  apply_all_lem (c ∷ cs) n vars s v ((z, f), hs) =
      let (r, run, m) = push_lits_lem c [] vars s v z (λ a. inr (f a)) in
      rw run (
        after_clause_lem vars (apply_stack k store r n s) (apply_all k store cs)
          (apply_stack_lem r n vars s v m) (λ n' s' v'. apply_all_lem cs n' vars s' v' hs))

  -- Applying what a thread has imported, where all these clauses follow from the input formula
  -- and have only literals of the solver's variables: no step fails, whatever the decision level before. What the solver
  -- holds afterwards follows from the formula, and the answer is true unless the formula has no
  -- solution.
  pub apply_imported_clauses_lem :
      (units clauses : List Clause) (n forced : ℕ) (s : State)
      → All (λ c. Translated (n_vars s) c × Follows c) units
      → All (λ c. Translated (n_vars s) c × Follows c) clauses
      → Sound s
      → (r : Applied k) × (apply_imported_clauses k store units clauses n forced s ≡ ok r)
        × Sound r.solver
        × ((r.ret ≡ true) ⊎ (Solution → ⊥))
  unfolding apply_imported_clauses Root
  apply_imported_clauses_lem units clauses n forced s hu hc v =
      let s' = if ltb 0 (decision_level s) then cancel_until 0 s else s in
      let v' : Root (n_vars s) s' = elim (Bool-cases (ltb 0 (decision_level s))) [
        | inl above ↦ rw above (w.cancel_sound s v, w.cancel_level s, w.cancel_vars s)
        | inr root ↦ rw root (v, ground arith, refl)
      ] in
      let (r, run_r, vr) = apply_all_lem units n (n_vars s) s' v' hu in
      let (t, run_t, vt) = apply_all_lem clauses r.0 (n_vars s) r.1 vr hc in
      (
        record {
          ret = is_ok t.1;
          num_imported_clauses = t.0;
          num_forced_applications = if ltb 0 (decision_level s) then u64 (forced + 1) else forced;
          solver = t.1;
        },
        rw run_r (rw run_t refl),
        vt.0,
        elim (Bool-cases (is_ok t.1)) [
          | inl fine ↦ inl fine
          | inr bad ↦ inr (w.ok_sound t.1 vt.0 bad)
        ],
      )
