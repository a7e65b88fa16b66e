-- ===== src/Solver/Kissat/Sound.antt =====
-- Taking clauses over is sound: what a Kissat solver has derived still follows from the formula.
use dps_pos.Base.{
  ℕ, ◌≡◌, ◌⊎◌, inl, inr, refl, sym, ap, subst, ◌∙◌, List, [], ◌∷◌, ◌++◌, true, Option, none, some,
  if◌then◌else◌, All, Bool-cases,
}
use dps_pos.Base.Int.{ℤ}
use dps_pos.Base.Result.{Result, ok}
use dps_pos.Period.Clause.{Clause}
use dps_pos.Solver.Kissat.{
  Kissat, Added, added, conflict, Use, stop, skip, push, is_valid, is_negative, is_above_zero,
  use_value, use_import, outcome, push_use, push_literals, add_stack, add_imported_clause,
}

-- One of the list has the property.
abbrev pub Any {ℓ} : {A : Type ℓ} → (A → Type 0) → List A → Type 0
Any P [] = ⊥
Any P (x ∷ xs) = P x ⊎ Any P xs

Any-append_left : (P : ℕ → Type 0) (xs ys : List ℕ) → Any P xs → Any P (xs ++ ys)
Any-append_left P [] ys h = absurd h
Any-append_left P (x ∷ xs) ys (inl h) = inl h
Any-append_left P (x ∷ xs) ys (inr h) = inr (Any-append_left P xs ys h)

Any-append_right : (P : ℕ → Type 0) (xs ys : List ℕ) → Any P ys → Any P (xs ++ ys)
Any-append_right P [] ys h = h
Any-append_right P (x ∷ xs) ys h = inr (Any-append_right P xs ys h)

-- What the code relies on in Kissat. `Solution` is the type of the assignments that satisfy the
-- input formula; `True` and `Holds` say when such an assignment makes an external literal and an
-- internal one true; `Sound s` says that what the state `s` has derived follows from the formula.
pub record Laws (k : Kissat) : Type 1 where
  pub Solution : Type 0
  pub True : Solution → ℤ → Type 0
  pub Holds : Solution → ℕ → Type 0
  pub Sound : k.State → Type 0
  pub backtrack_sound : (n : ℕ) (s : k.State) → Sound s → Sound (k.backtrack n s)
  pub import_sound : (l : ℤ) (s : k.State) → Sound s → Sound (k.import_literal l s).1
  pub import_same :
      (l : ℤ) (s : k.State) (i : ℕ)
      → (k.import_literal l s).0 ≡ some i
      → (a : Solution) → True a l
      → Holds a i
  pub fixed_false :
      (i : ℕ) (s : k.State)
      → Sound s
      → is_negative (k.fixed i s) ≡ true
      → (a : Solution) → Holds a i
      → ⊥
  pub unit_sound :
      (i : ℕ) (s : k.State) → Sound s → ((a : Solution) → Holds a i) → Sound (k.learned_unit i s)
  pub propagate_sound : (s : k.State) → Sound s → Sound (k.search_propagate s)
  pub clause_sound :
      (is : List ℕ) (n : ℕ) (s : k.State)
      → Sound s
      → ((a : Solution) → Any (Holds a) is)
      → Sound (k.new_redundant_clause is n s)
  pub inconsistent_sound : (s : k.State) → Sound s → k.inconsistent s ≡ true → Solution → ⊥

module _ {k : Kissat} (w : Laws k) where
  open k use {
    State, inconsistent, level, backtrack, import_literal, eliminated, fixed, learned_unit,
    search_propagate, new_redundant_clause,
  }
  open w use {Solution, True, Holds, Sound}

  -- Every solution of the formula satisfies the clause.
  abbrev pub Follows : Clause → Type 0
  Follows c = (a : Solution) → Any (True a) c

  -- A sound state; and if there was a conflict, the formula has no solution.
  abbrev pub SoundAnswer : Added × State → Type 0
  SoundAnswer r = Sound r.1 × (r.0 ≡ conflict → Solution → ⊥)

  pub outcome_sound : (s : State) → Sound s → SoundAnswer (outcome k s)
  outcome_sound s v = elim (Bool-cases (inconsistent s)) [
    | inl bad ↦ (v, λ _. w.inconsistent_sound s v bad)
    | inr good ↦ (
      v,
      λ e.
          let h : (if inconsistent s then conflict else added) ≡ added = rw good refl in
          let x : added ≡ conflict = sym h ∙ e in absurd (cc),
    )
  ]

  -- What a use of an external literal says of the internal one.
  abbrev pub UseMeans : ℤ → Use → Type 0
  UseMeans l stop = Unit
  UseMeans l skip = (a : Solution) → True a l → ⊥
  UseMeans l (push i) = (a : Solution) → True a l → Holds a i

  use_value_lem :
      (l : ℤ) (i : ℕ) (s : State)
      → Sound s
      → ((a : Solution) → True a l → Holds a i)
      → UseMeans l (use_value k i s)
  unfolding use_value
  use_value_lem l i s v h = elim (Bool-cases (eliminated i s)) [
    | inl gone ↦ rw gone tt
    | inr there ↦ rw there (elim (Bool-cases (is_above_zero (fixed i s))) [
      | inl high ↦ rw high tt
      | inr not_high ↦ rw not_high (elim (Bool-cases (is_negative (fixed i s))) [
        | inl low ↦ rw low (λ a t. w.fixed_false i s v low a (h a t))
        | inr free ↦ rw free h
      ])
    ])
  ]

  pub use_import_lem :
      (l : ℤ) (s : State) (x : Option ℕ × State)
      → import_literal l s ≡ x
      → Sound s
      → UseMeans l (use_import k x).0 × Sound (use_import k x).1
  unfolding use_import
  use_import_lem l s (none, s') e v = (tt, subst (λ y. Sound y.1) e (w.import_sound l s v))
  use_import_lem l s (some i, s') e v =
      let v' : Sound s' = subst (λ y. Sound y.1) e (w.import_sound l s v) in
      (use_value_lem l i s' v' (w.import_same l s i (ap (λ y. y.0) e)), v')

  -- What the loop over a clause's literals leaves on the stack.
  abbrev StackMeans : Option (List ℕ) → Type 0
  StackMeans none = Unit
  StackMeans (some is) = (a : Solution) → Any (Holds a) is

  StackSound : Result (Option (List ℕ) × State) → Type 0
  StackSound x = (r : Option (List ℕ) × State) × (x ≡ ok r) × StackMeans r.0 × Sound r.1

  push_use_lem :
      (l : ℤ) (c : Clause) (stack : List ℕ) (u : Use × State)
      → (next : List ℕ → State → Result (Option (List ℕ) × State)) → UseMeans l u.0 × Sound u.1
      → ((a : Solution) → Any (Holds a) stack ⊎ Any (True a) (l ∷ c))
      → ((is : List ℕ) (s : State)
          → Sound s
          → ((a : Solution) → Any (Holds a) is ⊎ Any (True a) c)
          → StackSound (next is s))
      → StackSound (push_use k u stack next)
  unfolding push_use StackSound
  push_use_lem l c stack (stop, s) next (m, v) h go = ((none, s), refl, tt, v)
  push_use_lem l c stack (skip, s) next (m, v) h go =
      go stack s v
        (λ a. elim (h a) [ inl x ↦ inl x | inr (inl t) ↦ absurd (m a t) | inr (inr t) ↦ inr t ])
  push_use_lem l c stack (push i, s) next (m, v) h go = go (stack ++ (i ∷ [])) s v (λ a.
      elim (h a) [
        | inl x ↦ inl (Any-append_left (Holds a) stack (i ∷ []) x)
        | inr (inl t) ↦ inl (Any-append_right (Holds a) stack (i ∷ []) (inl (m a t)))
        | inr (inr t) ↦ inr t
      ])

  push_literals_lem :
      (c : Clause) (stack : List ℕ) (s : State)
      → All (λ l. is_valid l ≡ true) c
      → Sound s
      → ((a : Solution) → Any (Holds a) stack ⊎ Any (True a) c)
      → StackSound (push_literals k c stack s)
  unfolding push_literals StackSound
  push_literals_lem [] stack s valid v h =
      ((some stack, s), refl, (λ a. elim (h a) [ inl x ↦ x | inr y ↦ absurd y ]), v)
  push_literals_lem (l ∷ c) stack s (ok_l, valid) v h = rw ok_l (
      push_use_lem l c stack (use_import k (import_literal l s)) (push_literals k c)
        (use_import_lem l s (import_literal l s) refl v) h
        (λ is s' v' h'. push_literals_lem c is s' valid v' h'))

  add_stack_lem :
      (r : Option (List ℕ) × State) → StackMeans r.0 → Sound r.1 → SoundAnswer (add_stack k r)
  unfolding add_stack
  add_stack_lem (none, s) m v = (v, λ e. absurd (cc))
  add_stack_lem (some [], s) m v = (v, λ _ a. m a)
  add_stack_lem (some (i ∷ []), s) m v =
      outcome_sound _ (
        w.propagate_sound _ (w.unit_sound i s v (λ a. elim (m a) [ inl x ↦ x | inr y ↦ absurd y ])))
  add_stack_lem (some (i ∷ j ∷ is), s) m v = outcome_sound _ (w.clause_sound (i ∷ j ∷ is) _ s v m)

  -- Taking over a clause that follows from the formula, with variables that Kissat accepts, does
  -- not fail. The state stays sound, and if the answer is a conflict, the formula has no solution.
  pub add_imported_clause-Sound :
      (c : Clause) (s : State)
      → All (λ l. is_valid l ≡ true) c
      → Sound s
      → Follows c
      → (r : Added × State) × (add_imported_clause k c s ≡ ok r) × SoundAnswer r
  unfolding add_imported_clause StackSound
  add_imported_clause-Sound c s valid v h = elim (Bool-cases (inconsistent s)) [
    | inl bad ↦ ((conflict, s), rw bad refl, (v, λ _. w.inconsistent_sound s v bad))
    | inr good ↦
        let (r, run, m, v') = push_literals_lem c [] s valid v (λ a. inr (h a)) in
        (add_stack k r, rw good (rw run refl), add_stack_lem r m v')
  ]
