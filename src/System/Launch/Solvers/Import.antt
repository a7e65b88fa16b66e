-- ===== src/System/Launch/Solvers/Import.antt =====
-- `completeCurrPeriod` and `importClauses` of a thread, as they are in a launch.
use dps_pos.Base.{
  ℕ, zero, suc, ◌-◌, ◌^◌, ◌<◌, ◌≤◌, ◌≡◌, ◌⊎◌, refl, sym, ap, subst, ◌∙◌, List, [], ◌∷◌, some, true,
  false, Bool, set, length, get_elem?, ltb, ◌==◌, if◌then◌else◌, arith, Bool-cases, inl, inr,
}
use dps_pos.Base.Result.{Result}
use dps_pos.Period.PrdClauses.{PrdClauses}
use dps_pos.Period.Queue.{PrdClausesQueue}
use dps_pos.Period.Queue
use dps_pos.Period.Manager.{get_at}
use dps_pos.Parallel.Sharer.{Sharer}
use dps_pos.Parallel.Sharer
use dps_pos.Solver.{Doubles, BaseSolver, Solver}
use dps_pos.Solver.Import.{Outcome, done, ◌>>=◌, Imports, import_targets, import_clauses, adapt}
use dps_pos.System.Launch.{taking, Worker}
use dps_pos.System.Launch.Alone.{with_worker}
use dps_pos.System.Launch.Ending.{Steps, none_left}
use dps_pos.System.Launch.Solvers.{held, imported, Search, framework}
use dps_pos.System.Launch.Solvers.Exchange.{bind_done, import_targets-Steps}

pub set_twice {ℓ} : {A : Type ℓ} (xs : List A) (i : ℕ) (a b : A) → set (set xs i a) i b ≡ set xs i b
set_twice [] i a b = refl
set_twice (x ∷ xs) zero a b = refl
set_twice (x ∷ xs) (suc i) a b = ap (◌∷◌ x) (set_twice xs i a b)

pub some_last :
    (xs : List PrdClauses) → 0 < length xs → (p : PrdClauses) × (Queue.last xs ≡ Result.ok p)
unfolding Queue.last
some_last [] h = absurd (omega arith)
some_last (x ∷ []) h = (x, refl)
some_last (x ∷ y ∷ xs) h = some_last (y ∷ xs) (omega arith)

completed_as :
    (x y : Sharer) (t len : ℕ) (q : PrdClausesQueue) (r : Result PrdClausesQueue)
    → get_elem? x.pcqm t ≡ some q
    → Queue.complete_addition q len ≡ r
    → Sharer.complete_curr_period x t len ≡ Result.ok y
    → (q' : PrdClausesQueue) × (Queue.complete_addition q len ≡ Result.ok q')
      × (y ≡ record x { pcqm = set x.pcqm t q' })
unfolding Sharer.complete_curr_period
completed_as x y t len q (Result.ok q') at e run =
    let run' : Sharer.complete_curr_period x t len
        ≡ Result.ok (record x { pcqm = set x.pcqm t q' }) =
      rw (get_at x.pcqm t q at) (rw e refl) in
    let both : Result.ok y ≡ Result.ok (record x { pcqm = set x.pcqm t q' }) = sym run ∙ run' in
    (q', e, cc)
completed_as x y t len q Result.fault at e run =
    let run' : Sharer.complete_curr_period x t len ≡ Result.fault =
      rw (get_at x.pcqm t q at) (rw e refl) in
    let bad : Result.ok y ≡ Result.fault = sym run ∙ run' in absurd (cc)

-- The sharer that `completeCurrPeriod` leaves.
pub complete_curr_period-ok :
    (x y : Sharer) (t len : ℕ) (q : PrdClausesQueue)
    → get_elem? x.pcqm t ≡ some q
    → Sharer.complete_curr_period x t len ≡ Result.ok y
    → (q' : PrdClausesQueue) × (Queue.complete_addition q len ≡ Result.ok q')
      × (y ≡ record x { pcqm = set x.pcqm t q' })
complete_curr_period-ok x y t len q at run =
    completed_as x y t len q (Queue.complete_addition q len) at refl run

module _ (D : Doubles) (B : BaseSolver) (b : Search D B) (n margin : ℕ)
    (first : ℕ → Solver D.Double B.State) where
  -- The import of a period check: a step for each other thread, or none in the first periods.
  pub record Exchanged (f : ℕ → Worker (Solver D.Double B.State)) (x : Sharer) (t r : ℕ)
      (v : Solver D.Double B.State) (v' : Solver D.Double B.State) (x' : Sharer) : Type 0 where
    pub upto : ℕ
    pub clauses : Imports
    pub enough : (n ≤ upto) ⊎ (r < margin)
    pub taken : v' ≡ (if ltb r margin then v else imported v clauses)
    pub steps :
        Steps
          (framework D B b n margin first)
          (with_worker x f t v r (taking 1 (held v)))
          (with_worker x' f t v r (taking upto clauses))

  -- `importClauses`, with the fields of the thread as arguments.
  abbrev pub import_as :
      ℕ
      → ℕ
      → ℕ
      → Bool
      → ℕ
      → Solver D.Double B.State
      → Sharer
      → Outcome (Solver D.Double B.State × Sharer × Bool)
  import_as t r mg non_det len v x =
      if ltb r mg
      then done (v, x, false)
      else (import_targets (x.num_threads - 1) 1 non_det t (r - mg) x (held v) >>= λ y.
          if len == 0
          then done (imported v y.1, y.0, true)
          else (adapt (imported v y.1) y.0 y.1.sum_prd_len_cand >>= λ z. done (z.0, z.1, true)))

  pub import_clauses-as :
      (v : Solver D.Double B.State) (x : Sharer)
      → import_clauses v x
        ≡ import_as v.thn v.periods v.margin v.options.non_det v.options.adpt_prd v x
  unfolding import_clauses
  import_clauses-as v x = refl

  pub import_clauses-Exchanged :
      (f : ℕ → Worker (Solver D.Double B.State)) (x : Sharer) (t r : ℕ)
      (v v' : Solver D.Double B.State) (x' : Sharer) (moved : Bool)
      → t < n
      → n < 2 ^ 31
      → x.num_threads ≡ n
      → import_as t r margin false 0 v x ≡ done (v', x', moved)
      → Exchanged f x t r v v' x'
  import_clauses-Exchanged f x t r v v' x' moved l few nt run = elim (Bool-cases (ltb r margin)) [
    | inl early ↦
        let run' : done (v, x, false) ≡ done (v', x', moved) = rw early at run in
        let same_solver : v' ≡ v = cc in
        let same_sharer : x ≡ x' = cc in
        record {
          upto = 1;
          clauses = held v;
          enough = inr (ground arith);
          taken = rw early same_solver;
          steps =
              subst
                (λ y.
                  Steps (framework D B b n margin first) (with_worker x f t v r (taking 1 (held v)))
                    (with_worker y f t v r (taking 1 (held v))))
                same_sharer none_left;
        }
    | inr in_time ↦
        let run' : (import_targets (x.num_threads - 1) 1 false t (r - margin) x (held v) >>= λ y.
        done (imported v y.1, y.0, true))
            ≡ done (v', x', moved) =
          rw in_time at run in
        let (y, targets, last) =
          bind_done (import_targets (x.num_threads - 1) 1 false t (r - margin) x (held v)) _
            (v', x', moved) run' in
        let same_solver : v' ≡ imported v y.1 = cc in
        let same_sharer : y.0 ≡ x' = cc in
        record {
          upto = n;
          clauses = y.1;
          enough = inl (omega arith);
          taken = rw in_time same_solver;
          steps =
              subst
                (λ z.
                  Steps (framework D B b n margin first) (with_worker x f t v r (taking 1 (held v)))
                    (with_worker z f t v r (taking n y.1)))
                same_sharer
                (import_targets-Steps (framework D B b n margin first) f t r v (x.num_threads - 1) 1
                  x y.0 (held v) y.1 l few (ground arith) (omega (arith, nt, l)) nt targets);
        }
  ]
