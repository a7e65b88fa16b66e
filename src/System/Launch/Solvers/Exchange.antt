-- ===== src/System/Launch/Solvers/Exchange.antt =====
-- The parts of a period check, as they are in a launch: the export, and the import from the other
-- threads.
use dps_pos.Base.{
  ℕ, zero, suc, ◌+◌, ◌-◌, ◌%◌, ◌^◌, ◌<◌, ◌≤◌, ◌≡◌, refl, sym, ap, subst, ◌∙◌, false, set, length,
  u32, arith,
}
use dps_pos.Base.Result.{Result}
use dps_pos.Period.Buffer.{ClauseBuffer, export_to}
use dps_pos.Period.PrdClauses.{PrdClauses}
use dps_pos.Period.PrdClauses
use dps_pos.Period.Queue.{PrdClausesQueue}
use dps_pos.Period.Queue
use dps_pos.Period.Manager
use dps_pos.Parallel.Sharer.{Sharer}
use dps_pos.Solver.{Doubles, BaseSolver, Solver}
use dps_pos.Solver.Period.{export_selected_clauses}
use dps_pos.Solver.Import.{
  Outcome, done, waits, fault, lift, ◌>>=◌, Imports, import_queue, import_targets,
}
use dps_pos.System.{add_clauses}
use dps_pos.System.Publish.{add_clauses-Filled}
use dps_pos.System.Launch.{Program, taking, Worker}
use dps_pos.System.Launch.Alone.{take-at, with_worker}
use dps_pos.System.Launch.Ending.{Steps, none_left, step}
use dps_pos.System.Launch.Solvers.{selection, selection_of, after_export}
use dps_pos.System.Launch.Solvers.Selected.{export_to-Grows}

pub bind_done {ℓ κ} :
    {A : Type ℓ} {B : Type κ} (m : Outcome A) (f : A → Outcome B) (b : B)
    → (m >>= f) ≡ done b
    → (a : A) × (m ≡ done a) × (f a ≡ done b)
bind_done (done a) f b e = (a, refl, e)
bind_done waits f b e = absurd (cc)
bind_done fault f b e = absurd (cc)

pub lift_done {ℓ} : {A : Type ℓ} (r : Result A) (a : A) → lift r ≡ done a → r ≡ Result.ok a
lift_done (Result.ok x) a e = ap Result.ok (cc)
lift_done Result.fault a e = absurd (cc)

-- What is selected for any set that is open.
pub selection-add_clauses :
    (b : ClauseBuffer) (max : ℕ) (p : PrdClauses)
    → p.completed ≡ false
    → (p' : PrdClauses) × (add_clauses (selection b max).0 p ≡ Result.ok p')
      × (export_to b p max ≡ Result.ok ((selection b max).1, p', (selection b max).2))
unfolding selection PrdClauses.init
selection-add_clauses b max p o =
    let (xs, b', n, h) = export_to-Grows b max in
    let (d0, gr0, run0) = h (PrdClauses.init 0 0) refl in
    let (p', gr, run) = h p o in
    let (d1, run1, filled) = add_clauses-Filled xs (PrdClauses.init 0 0) refl in
    let both : Result.ok d1 ≡ Result.ok d0 = sym run1 ∙ gr0.grown in
    let same_set : d1 ≡ d0 = cc in
    let all : d0.clauses ≡ xs = subst (λ d. d.clauses ≡ xs) same_set filled.clauses in
    let sel : selection_of b (export_to b (PrdClauses.init 0 0) max) ≡ (xs, b', n) =
      ap (selection_of b) run0 ∙ ap (λ ys. (ys, b', n)) all in
    (
      p',
      subst (λ s. add_clauses s.0 p ≡ Result.ok p') (sym sel) gr.grown,
      subst (λ s. export_to b p max ≡ Result.ok (s.1, p', s.2)) (sym sel) run,
    )

module _ (D : Doubles) (B : BaseSolver) where
  pub export_selected_clauses_lem :
      (v : Solver D.Double B.State) (x : Sharer) (q : PrdClausesQueue) (p : PrdClauses)
      → Manager.get x.pcqm v.thn ≡ Result.ok q
      → Queue.last q.queue ≡ Result.ok p
      → p.completed ≡ false
      → (p' : PrdClauses) × (add_clauses (selection v.exp_clauses_buf v.exp_lits_lim).0 p
          ≡ Result.ok p')
        × (export_selected_clauses D B v x
            ≡ done (
              after_export D B v
                  (selection v.exp_clauses_buf v.exp_lits_lim).1
                  (selection v.exp_clauses_buf v.exp_lits_lim).2,
              record x { pcqm = set x.pcqm v.thn (record q { queue = Queue.set_last q.queue p' }) },
            ))
  unfolding export_selected_clauses
  export_selected_clauses_lem v x q p at lst o =
      let (p', add, run) = selection-add_clauses v.exp_clauses_buf v.exp_lits_lim p o in
      (p', add, rw at (rw lst (rw run refl)))

module _ {L : Type 0} (c : Program L) where
  open c use {setup}
  open setup use {num_threads, margin}

  -- The import from thread `w` and the rest of the loop.
  abbrev pub from_target : ℕ → ℕ → ℕ → ℕ → Sharer → Imports → ℕ → Outcome (Sharer × Imports)
  from_target left i t period x m w = lift (Manager.get x.pcqm w) >>= λ q.
      import_queue (suc (length q.queue)) false t period q m >>= λ y.
      import_targets left (suc i) false t period (record x { pcqm = set x.pcqm w y.0 }) y.1

  -- The loop over the other threads is a step for each of them.
  pub import_targets-Steps :
      (f : ℕ → Worker L) (t r : ℕ) (v : L) (left i : ℕ) (x x' : Sharer) (m m' : Imports)
      → t < num_threads
      → num_threads < 2 ^ 31
      → margin ≤ r
      → i + left ≡ num_threads
      → x.num_threads ≡ num_threads
      → import_targets left i false t (r - margin) x m ≡ done (x', m')
      → Steps c
          (with_worker x f t v r (taking i m))
          (with_worker x' f t v r (taking num_threads m'))
  unfolding import_targets
  import_targets-Steps f t r v zero i x x' m m' l few lm sum nt run =
      let same_sharer : x ≡ x' = cc in
      let same_clauses : m ≡ m' = cc in
      let all : i ≡ num_threads = omega (arith, sum) in
      subst
        (λ y.
          Steps c (with_worker x f t v r (taking i m))
            (with_worker y f t v r (taking num_threads m')))
        same_sharer
        (subst (λ g. Steps c (with_worker x f t v r (taking i m)) (with_worker x f t v r g))
          (ap (λ j. taking j m) all ∙ ap (taking num_threads) same_clauses) none_left)
  import_targets-Steps f t r v (suc left) i x x' m m' l few lm sum nt run =
      let wrap : u32 (t + i) % x.num_threads ≡ (t + i) % num_threads =
        ap (λ k. u32 (t + i) % k) nt ∙ ap (λ k. k % num_threads) (omega (arith, few)) in
      let w = (t + i) % num_threads in
      let run' : from_target left i t (r - margin) x m w ≡ done (x', m') =
        subst (λ k. from_target left i t (r - margin) x m k ≡ done (x', m')) wrap run in
      let (q, got, run1) = bind_done (lift (Manager.get x.pcqm w)) _ (x', m') run' in
      let at : Manager.get x.pcqm w ≡ Result.ok q = lift_done (Manager.get x.pcqm w) q got in
      let (r1, took, run2) =
        bind_done (import_queue (suc (length q.queue)) false t (r - margin) q m) _ (x', m') run1 in
      step (take-at c f x t i r v m r1.1 q r1.0 l (omega (arith, sum)) lm at took) (
        import_targets-Steps f t r v left (suc i) (record x { pcqm = set x.pcqm w r1.0 }) x' r1.1 m'
          l few lm (omega (arith, sum)) nt run2)
