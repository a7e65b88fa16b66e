-- ===== src/Solver/Kissat/Apply.antt =====
-- Applying all that a thread has imported is sound.
use dps_pos.Base.{
  ℕ, ◌+◌, ◌≡◌, ◌⊎◌, inl, inr, refl, List, [], ◌∷◌, Bool, true, false, length, u64, ltb,
  if◌then◌else◌, All, arith, Bool-cases,
}
use dps_pos.Base.Int.{ℤ}
use dps_pos.Base.Result.{Result, ok}
use dps_pos.Period.Clause.{Clause}
use dps_pos.Solver.Kissat.{
  Kissat, Added, satisfied, added, conflict, Use, stop, skip, push, is_valid,
  add_imported_unit_clause, unit_use, Applied, after_clause, apply_units, apply_clauses,
  apply_imported_clauses,
}
use dps_pos.Solver.Kissat.Sound.{
  Laws, Follows, SoundAnswer, UseMeans, outcome_sound, use_import_lem, add_imported_clause-Sound,
}

module _ {k : Kissat} (w : Laws k) where
  open k use {
    State, inconsistent, level, backtrack, import_literal, eliminated, fixed, learned_unit,
    search_propagate, new_redundant_clause,
  }
  open w use {Solution, True, Holds, Sound}

  unit_use_lem :
      (l : ℤ) (u : Use × State)
      → UseMeans w l u.0 × Sound u.1
      → ((a : Solution) → True a l)
      → SoundAnswer w (unit_use k u)
  unfolding unit_use
  unit_use_lem l (stop, s) (m, v) h = (v, λ e. absurd (cc))
  unit_use_lem l (skip, s) (m, v) h = (v, λ _ a. m a (h a))
  unit_use_lem l (push i, s) (m, v) h =
      outcome_sound w _ (w.propagate_sound _ (w.unit_sound i s v (λ a. m a (h a))))

  add_imported_unit_clause-Sound :
      (l : ℤ) (s : State)
      → is_valid l ≡ true
      → Sound s
      → ((a : Solution) → True a l)
      → (r : Added × State) × (add_imported_unit_clause k l s ≡ ok r) × SoundAnswer w r
  unfolding add_imported_unit_clause
  add_imported_unit_clause-Sound l s valid v h = elim (Bool-cases (inconsistent s)) [
    | inl bad ↦ ((conflict, s), rw bad refl, (v, λ _. w.inconsistent_sound s v bad))
    | inr good ↦ (
      _,
      rw good (rw valid refl),
      unit_use_lem l _ (use_import_lem w l s (import_literal l s) refl v) h,
    )
  ]

  -- The solver is sound after the loop, and the loop fails only if the formula has no solution.
  abbrev pub SoundApplied : Result (Applied k) → Type 0
  SoundApplied x = (r : Applied k) × (x ≡ ok r) × Sound r.solver × (r.ret ≡ false → Solution → ⊥)

  after_clause_lem :
      (n : ℕ) (r : Added × State) (next : ℕ → State → Result (Applied k))
      → SoundAnswer w r
      → ((m : ℕ) (s : State) → Sound s → SoundApplied (next m s))
      → SoundApplied (after_clause k n r next)
  unfolding after_clause
  after_clause_lem n (satisfied, s) next (v, b) h = h n s v
  after_clause_lem n (added, s) next (v, b) h = h (u64 (n + 1)) s v
  after_clause_lem n (conflict, s) next (v, b) h = (_, refl, v, λ _. b refl)

  -- An imported clause: its variables are from 1 to 2 ^ 28 - 1, and it follows from the
  -- formula.
  abbrev pub Imported : Clause → Type 0
  Imported c = All (λ l. is_valid l ≡ true) c × Follows w c

  apply_units-Sound :
      (cs : List Clause) (n : ℕ) (s : State)
      → All (λ c. Imported c × (length c ≡ 1)) cs
      → Sound s
      → SoundApplied (apply_units k cs n s)
  unfolding apply_units
  apply_units-Sound [] n s h v = (_, refl, v, λ e. absurd (cc))
  apply_units-Sound ([] ∷ cs) n s ((h, e), hs) v = absurd (omega arith)
  apply_units-Sound ((l ∷ []) ∷ cs) n s ((((valid, _), h), e), hs) v =
      let (r, run, b) =
        add_imported_unit_clause-Sound l s valid v
          (λ a. elim (h a) [ inl x ↦ x | inr y ↦ absurd y ]) in
      rw run
        (after_clause_lem n r (apply_units k cs) b (λ m s' v'. apply_units-Sound cs m s' hs v'))
  apply_units-Sound ((l ∷ j ∷ c) ∷ cs) n s ((h, e), hs) v = absurd (omega arith)

  apply_clauses-Sound :
      (cs : List Clause) (n : ℕ) (s : State)
      → All Imported cs
      → Sound s
      → SoundApplied (apply_clauses k cs n s)
  unfolding apply_clauses
  apply_clauses-Sound [] n s h v = (_, refl, v, λ e. absurd (cc))
  apply_clauses-Sound (c ∷ cs) n s ((valid, h), hs) v =
      let (r, run, b) = add_imported_clause-Sound w c s valid v h in
      rw run
        (after_clause_lem n r (apply_clauses k cs) b (λ m s' v'. apply_clauses-Sound cs m s' hs v'))

  both_false : (a b : Bool) → (if a then b else false) ≡ false → (a ≡ false) ⊎ (b ≡ false)
  both_false true b h = inr h
  both_false false b h = inl refl

  -- Applying what a thread has imported: if all these clauses follow from the input formula and their
  -- variables are from 1 to 2 ^ 28 - 1, the largest that Kissat accepts, and if each clause of the
  -- first list is a unit, then no step fails, the solver has derived nothing afterwards that does not
  -- follow, and the return value is true unless the formula has no solution. What Kissat itself does
  -- keeps to the laws in `Laws`.
  pub apply_imported_clauses-Sound :
      (units clauses : List Clause) (n forced : ℕ) (s : State)
      → All (λ c. Imported c × (length c ≡ 1)) units
      → All Imported clauses
      → Sound s
      → (r : Applied k × ℕ) × (apply_imported_clauses k units clauses n forced s ≡ ok r)
        × Sound r.0.solver
        × ((r.0.ret ≡ true) ⊎ (Solution → ⊥))
  unfolding apply_imported_clauses
  apply_imported_clauses-Sound units clauses n forced s hu hc v =
      let s' = if ltb 0 (level s) then backtrack 0 s else s in
      let v' : Sound s' = elim (Bool-cases (ltb 0 (level s))) [
        | inl above ↦ rw above (w.backtrack_sound 0 s v)
        | inr root ↦ rw root v
      ] in
      let (u, run_u, vu, bu) = apply_units-Sound units n s' hu v' in
      let (r, run, vr, br) = apply_clauses-Sound clauses u.num_imported_clauses u.solver hc vu in
      (
        (
          record r { ret = if u.ret then r.ret else false },
          if ltb 0 (level s) then u64 (forced + 1) else forced,
        ),
        rw run_u (rw run refl),
        vr,
        elim (Bool-cases (if u.ret then r.ret else false)) [
          | inl x ↦ inl x
          | inr x ↦ inr (elim (both_false u.ret r.ret x) [ inl y ↦ bu y | inr z ↦ br z ])
        ],
      )
