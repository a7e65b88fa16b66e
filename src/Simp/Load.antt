-- ===== src/Simp/Load.antt =====
-- Loading a formula into a solver keeps its meaning.
pub mod Answer
use dps_pos.Base.{
  ℕ, zero, suc, ◌+◌, ◌-◌, ◌≡◌, ◌<◌, ◌≤◌, ◌⊎◌, inl, inr, refl, sym, ap, subst, ◌∙◌, List, [], ◌∷◌,
  ◌++◌, Bool, true, false, not, length, leb, ltb, if◌then◌else◌, All, All-append, All-imp, arith,
  Bool-cases,
}
use dps_pos.Base.Int.{ℤ, pos, negsuc, abs}
use dps_pos.Base.Any.{Any, Any-append, Any-append_inv}
use dps_pos.Base.Result.{Result, ok, fault, ◌>>=◌}
use dps_pos.Period.Clause.{Clause}
use dps_pos.Sat.Model.{is_positive}
use dps_pos.Simp.{SimpSolver, to_lit, grow, var_of, load_lits, add_loaded, load_formula}
use dps_pos.Simp.Literals.{LitLaws}

-- A literal of the library, and one of a clause, under an assignment to the variables from 0.
abbrev pub LitTrue : (k : SimpSolver) → (ℕ → Bool) → k.Lit → Type 0
LitTrue k a l = a (k.var l) ≡ not (k.sign l)

abbrev pub IntTrue : (ℕ → Bool) → ℤ → Type 0
IntTrue a n = a (var_of n) ≡ is_positive n

-- What the code relies on in the libraries. `Models a s` says that the assignment satisfies all that
-- has been added. A clause that is added has no variable that was not made before.
pub record LoadLaws (k : SimpSolver) : Type 1 where
  pub lits : LitLaws k
  pub Models : (ℕ → Bool) → k.State → Type 0
  pub new_var_count : (s : k.State) → k.n_vars (k.new_var s) ≡ suc (k.n_vars s)
  pub new_var_to : (a : ℕ → Bool) (s : k.State) → Models a s → Models a (k.new_var s)
  pub new_var_from : (a : ℕ → Bool) (s : k.State) → Models a (k.new_var s) → Models a s
  pub add_count : (c : List k.Lit) (s : k.State) → k.n_vars (k.add_clause c s).1 ≡ k.n_vars s
  pub add_to :
      (a : ℕ → Bool) (c : List k.Lit) (s : k.State)
      → All (λ l. k.var l < k.n_vars s) c
      → Models a s
      → Any (LitTrue k a) c
      → ((k.add_clause c s).0 ≡ true) × Models a (k.add_clause c s).1
  pub add_from :
      (a : ℕ → Bool) (c : List k.Lit) (s : k.State)
      → All (λ l. k.var l < k.n_vars s) c
      → Models a (k.add_clause c s).1
      → Models a s × Any (LitTrue k a) c

module _ {k : SimpSolver} (w : LoadLaws k) where
  open k use {Lit, mk_lit, neg, var, sign, State, n_vars, new_var, add_clause}
  open w use {Models}

  -- More variables, and no other meaning.
  pub record Extends (s t : State) : Type 0 where
    pub more : n_vars s ≤ n_vars t
    pub to : (a : ℕ → Bool) → Models a s → Models a t
    pub from : (a : ℕ → Bool) → Models a t → Models a s

  Extends-trans : (s t u : State) → Extends s t → Extends t u → Extends s u
  Extends-trans s t u e f = record {
    more = omega (arith, e.more, f.more);
    to = λ a m. f.to a (e.to a m);
    from = λ a m. e.from a (f.from a m);
  }

  grow_lem :
      (fuel v : ℕ) (s : State)
      → 0 < fuel
      → suc v < fuel + n_vars s
      → (t : State) × (grow k fuel v s ≡ ok t) × (v < n_vars t) × Extends s t
  unfolding grow
  grow_lem zero v s z h = absurd (omega arith)
  grow_lem (suc fuel) v s z h = elim (Bool-cases (leb (n_vars s) v)) [
    | inl few ↦
        let (t, run, l, e) =
          grow_lem fuel v (new_var s) (ground arith) (omega (arith, w.new_var_count s)) in
        (
          t,
          rw few run,
          l,
          Extends-trans s (new_var s) t
              (record {
                more = omega (arith, w.new_var_count s);
                to = λ a. w.new_var_to a s;
                from = λ a. w.new_var_from a s;
              })
              e,
        )
    | inr many ↦ (
      s,
      rw many refl,
      ground arith,
      record { more = omega arith; to = λ a m. m; from = λ a m. m },
    )
  ]

  -- The literal of a number.
  record Means (n : ℤ) (l : Lit) : Type 0 where
    same_var : var l ≡ var_of n
    to_int : (a : ℕ → Bool) → LitTrue k a l → IntTrue a n
    of_int : (a : ℕ → Bool) → IntTrue a n → LitTrue k a l

  Means-of : (n : ℤ) (l : Lit) → var l ≡ var_of n → not (sign l) ≡ is_positive n → Means n l
  Means-of n l v s = record {
    same_var = v;
    to_int = λ a h. ap a (sym v) ∙ h ∙ s;
    of_int = λ a h. ap a v ∙ h ∙ sym s;
  }

  to_lit_lem : (n : ℤ) → 0 < abs n → (l : Lit) × (to_lit k n ≡ ok l) × Means n l
  unfolding to_lit
  to_lit_lem (pos zero) h = absurd (omega arith)
  to_lit_lem (pos (suc v)) h =
      let e : suc v - 1 ≡ v = omega arith in
      let positive : true ≡ ltb 0 (suc v) = ground arith in
      (
        mk_lit v false,
        refl,
        Means-of (pos (suc v)) (mk_lit v false) (w.lits.var_mk v false ∙ sym e)
            (ap not (w.lits.sign_mk v false) ∙ positive),
      )
  to_lit_lem (negsuc v) h = (
    neg (mk_lit v false),
    refl,
    Means-of (negsuc v) (neg (mk_lit v false)) (w.lits.var_neg _ ∙ w.lits.var_mk v false)
        (ap not (w.lits.sign_neg _ ∙ ap not (w.lits.sign_mk v false))),
  )

  -- The literals that were pushed before, and those of the clause.
  record Pushed (c : List Lit) (clause : Clause) (s : State) (r : List Lit × State) : Type 0 where
    extends : Extends s r.1
    in_range : All (λ l. var l < n_vars r.1) r.0
    made : All (λ n. var_of n < n_vars r.1) clause
    to_ints : (a : ℕ → Bool) → Any (LitTrue k a) r.0 → Any (LitTrue k a) c ⊎ Any (IntTrue a) clause
    of_ints : (a : ℕ → Bool) → Any (LitTrue k a) c ⊎ Any (IntTrue a) clause → Any (LitTrue k a) r.0

  load_lits_lem :
      (clause : Clause) (c : List Lit) (s : State)
      → All (λ n. 0 < abs n) clause
      → All (λ l. var l < n_vars s) c
      → (r : List Lit × State) × (load_lits k clause c s ≡ ok r) × Pushed c clause s r
  unfolding load_lits
  load_lits_lem [] c s z h = (
    (c, s),
    refl,
    record {
      extends = record { more = omega arith; to = λ a m. m; from = λ a m. m };
      in_range = h;
      made = tt;
      to_ints = λ a x. inl x;
      of_ints = λ a x. elim x [ inl y ↦ y | inr y ↦ absurd y ];
    },
  )
  load_lits_lem (n ∷ clause) c s (z, zs) h =
      let (t, run_g, room, e) =
        grow_lem (suc (suc (var_of n))) (var_of n) s (omega arith) (omega arith) in
      let (l, run_l, m) = to_lit_lem n z in
      let c' : List Lit = c ++ (l ∷ []) in
      let in_c = All-imp (λ x y. omega (arith, y, e.more)) c h in
      let (r, run, p) =
        load_lits_lem clause c' t zs
          (All-append _ c (l ∷ []) in_c (omega (arith, room, m.same_var), tt)) in
      (
        r,
        rw run_g (rw run_l run),
        record {
          extends = Extends-trans s t r.1 e p.extends;
          in_range = p.in_range;
          made = (omega (arith, room, p.extends.more), p.made);
          to_ints = λ a x. elim (p.to_ints a x) [
            | inl y ↦ elim (Any-append_inv (LitTrue k a) c (l ∷ []) y) [
              | inl u ↦ inl u
              | inr u ↦ elim u [ inl q ↦ inr (inl (m.to_int a q)) | inr q ↦ absurd q ]
            ]
            | inr y ↦ inr (inr y)
          ];
          of_ints = λ a x. p.of_ints a (elim x [
            | inl y ↦ inl (Any-append (LitTrue k a) c (l ∷ []) (inl y))
            | inr y ↦ elim y [
              | inl q ↦ inl (Any-append (LitTrue k a) c (l ∷ []) (inr (inl (m.of_int a q))))
              | inr q ↦ inr q
            ]
          ]);
        },
      )

  -- Each clause has a literal that is true.
  abbrev pub Satisfied : (ℕ → Bool) → List Clause → Type 0
  Satisfied a clauses = All (Any (IntTrue a)) clauses

  -- What the call says of the solver: it holds what it held before and the clauses, or the two
  -- contradict each other.
  pub record Loaded (clauses : List Clause) (s : State) (r : Bool × State) : Type 0 where
    pub more : n_vars s ≤ n_vars r.1
    pub made : r.0 ≡ true → All (All (λ n. var_of n < n_vars r.1)) clauses
    pub from : (a : ℕ → Bool) → r.0 ≡ true → Models a r.1 → Models a s × Satisfied a clauses
    pub to : (a : ℕ → Bool) → Models a s → Satisfied a clauses → (r.0 ≡ true) × Models a r.1

  add_loaded_lem :
      (clause : Clause) (clauses : List Clause) (s : State) (p : List Lit × State)
      → (next : State → Result (Bool × State)) → Pushed [] clause s p
      → ((t : State) → (r : Bool × State) × (next t ≡ ok r) × Loaded clauses t r)
      → (r : Bool × State) × (add_loaded k p next ≡ ok r) × Loaded (clause ∷ clauses) s r
  unfolding add_loaded
  add_loaded_lem clause clauses s (c, t) next p go =
      let t' = (add_clause c t).1 in
      elim (Bool-cases (add_clause c t).0) [
        | inl fine ↦
            let (r, run, d) = go t' in
            (
              r,
              rw fine run,
              record {
                more = omega (arith, p.extends.more, w.add_count c t, d.more);
                made = λ e. (
                  All-imp (λ n x. omega (arith, x, w.add_count c t, d.more)) clause p.made,
                  d.made e,
                );
                from = λ a e m.
                    let (m', sat) = d.from a e m in
                    let (mt, one) = w.add_from a c t p.in_range m' in
                    (
                      p.extends.from a mt,
                      (elim (p.to_ints a one) [ inl x ↦ absurd x | inr x ↦ x ], sat),
                    );
                to = λ a m sat.
                    d.to a
                      (w.add_to a c t p.in_range (p.extends.to a m) (p.of_ints a (inr sat.0))).1
                      sat.1;
              },
            )
        | inr clash ↦ (
          (false, t'),
          rw clash refl,
          record {
            more = omega (arith, p.extends.more, w.add_count c t);
            made = λ e. absurd (cc);
            from = λ a e m. absurd (cc);
            to = λ a m sat.
                let x =
                  (w.add_to a c t p.in_range (p.extends.to a m) (p.of_ints a (inr sat.0))).0 in
                absurd (cc);
          },
        )
      ]

  -- A formula without literal 0 is loaded without a failure. If the answer is true, the assignments
  -- that satisfy all that the solver holds are those that did before and that make a literal of
  -- each clause true; if it is false, there is no such assignment.
  pub load_formula-Loaded :
      (clauses : List Clause) (s : State)
      → All (All (λ n. 0 < abs n)) clauses
      → (r : Bool × State) × (load_formula k clauses s ≡ ok r) × Loaded clauses s r
  unfolding load_formula
  load_formula-Loaded [] s h = (
    (true, s),
    refl,
    record { more = omega arith; made = λ e. tt; from = λ a e m. (m, tt); to = λ a m x. (refl, m) },
  )
  load_formula-Loaded (clause ∷ clauses) s (h, hs) =
      let (p, run, pushed) = load_lits_lem clause [] s h tt in
      rw run (
        add_loaded_lem clause clauses s p (load_formula k clauses) pushed
          (λ t. load_formula-Loaded clauses t hs))
