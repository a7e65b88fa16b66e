-- ===== src/System/Launch/Solvers/Simulation.antt =====
-- `checkPeriod` is a sequence of steps of its thread.
use dps_pos.Base.{
  ℕ, ◌+◌, ◌^◌, ◌<◌, ◌≡◌, refl, sym, ap, subst, ◌∙◌, none, some, true, false, not, Bool, get_elem?,
  ltb, if◌then◌else◌,
}
use dps_pos.Base.Result.{Result}
use dps_pos.Period.Queue.{PrdClausesQueue}
use dps_pos.Period.Queue.Invariant.{IsQueue}
use dps_pos.Parallel.Sharer.{Sharer}
use dps_pos.Parallel.Sharer
use dps_pos.Solver.{Doubles, BaseSolver, Solver}
use dps_pos.Solver.Period.{move_to_next_period, should_be_terminated, check_period}
use dps_pos.Solver.Import.{done, lift, ◌>>=◌, import_clauses}
use dps_pos.System.Launch.{searching, taking, told, Stage, Worker, State}
use dps_pos.System.Launch.Alone.{move-at, check-at, with_worker}
use dps_pos.System.Launch.Ending.{Steps, none_left, step}
use dps_pos.System.Launch.Solvers.{held, imported, absorb, stay, Search, framework}
use dps_pos.System.Launch.Solvers.Check.{
  AtEnd, after_import, should_be_terminated_lem, told_or_searching,
}
use dps_pos.System.Launch.Solvers.Complete.{complete-Completed}
use dps_pos.System.Launch.Solvers.Fields.{Keeps}
use dps_pos.System.Launch.Solvers.Exchange.{bind_done, lift_done}
use dps_pos.System.Launch.Solvers.Import.{import_as, import_clauses-as, import_clauses-Exchanged}

if_same {ℓ κ} :
    {A : Type ℓ} {C : Type κ} (c : Bool) (x y : A) (g : A → C)
    → g y ≡ g x
    → g (if c then x else y) ≡ g x
if_same true x y g h = refl
if_same false x y g h = h

module _ (D : Doubles) (B : BaseSolver) (b : Search D B) (n margin : ℕ)
    (first : ℕ → Solver D.Double B.State) where
  Steps-append :
      (s s' s'' : State (Solver D.Double B.State))
      → Steps (framework D B b n margin first) s s'
      → Steps (framework D B b n margin first) s' s''
      → Steps (framework D B b n margin first) s s''
  Steps-append s s' s'' none_left k = k
  Steps-append s s' s'' (step st h) k = step st (Steps-append _ s' s'' h k)

  pub fields_as :
      (x : Sharer) (u w : Solver D.Double B.State) (used now : D.Double)
      → AtEnd D B margin used now u
      → Keeps u w
      → import_clauses w x ≡ import_as D B b n margin first u.thn u.periods margin false 0 w x
  fields_as x u w used now h kept =
      import_clauses-as D B b n margin first w x
      ∙ ap
          (λ i.
            import_as D B b n margin first i w.periods w.margin w.options.non_det w.options.adpt_prd
              w x)
          kept.thn
      ∙ ap
          (λ i.
            import_as D B b n margin first u.thn i w.margin w.options.non_det w.options.adpt_prd w
              x)
          kept.periods
      ∙ ap
          (λ i.
            import_as D B b n margin first u.thn u.periods i w.options.non_det w.options.adpt_prd w
              x)
          (kept.margin ∙ h.same_margin)
      ∙ ap (λ i. import_as D B b n margin first u.thn u.periods margin i w.options.adpt_prd w x)
          (ap (λ o. o.non_det) kept.options ∙ h.deterministic)
      ∙ ap (λ i. import_as D B b n margin first u.thn u.periods margin false i w x)
          (ap (λ o. o.adpt_prd) kept.options ∙ h.fixed_length)

  -- From the import to the end of the period check.
  import-Steps :
      (f : ℕ → Worker (Solver D.Double B.State)) (x x' : Sharer) (u w v' : Solver D.Double B.State)
      (used now : D.Double) (goes_on : Bool)
      → u.thn < n
      → n < 2 ^ 31
      → x.num_threads ≡ n
      → AtEnd D B margin used now u
      → Keeps u w
      → (import_clauses w x >>= after_import D B used now) ≡ done (v', x', goes_on)
      → Steps
          (framework D B b n margin first)
          (with_worker x f u.thn w u.periods (taking 1 (held w)))
          (with_worker x' f u.thn v' (u.periods + 1) (if goes_on then searching else told))
  import-Steps f x x' u w v' used now goes_on l few nt h kept run =
      let (z, imported_at, run2) = bind_done (import_clauses w x) _ (v', x', goes_on) run in
      let (v4, moved_lift, run3) =
        bind_done (lift (move_to_next_period z.0)) _ (v', x', goes_on) run2 in
      let moved : move_to_next_period z.0 ≡ Result.ok v4 =
        lift_done (move_to_next_period z.0) v4 moved_lift in
      let by_fields : import_as D B b n margin first u.thn u.periods margin false 0 w x ≡ done z =
        sym (fields_as x u w used now h kept) ∙ imported_at in
      let e =
        import_clauses-Exchanged D B b n margin first f x u.thn u.periods w z.0 z.1 z.2 l few nt
          by_fields in
      let m = e.clauses in
      let same_limits : (A : Type 0) (g : Solver D.Double B.State → A)
          → g (imported w m) ≡ g w
          → g z.0 ≡ g w =
        λ A g k. ap g e.taken ∙ if_same (ltb u.periods margin) w (imported w m) g k in
      let test =
        should_be_terminated_lem D B u z.0 v4 z.1 used now h.in_limits
          (same_limits D.Double (λ y. y.start_real_time) refl ∙ kept.start_real_time)
          (same_limits D.Double (λ y. y.real_time_lim) refl ∙ kept.real_time_lim)
          (same_limits D.Double (λ y. y.mem_use_lim) refl ∙ kept.mem_use_lim)
          (same_limits ℕ (λ y. y.periods) refl ∙ kept.periods) h.room moved in
      let early : ltb w.periods w.margin ≡ ltb u.periods margin =
        ap (λ i. ltb i w.margin) kept.periods ∙ ap (ltb u.periods) (kept.margin ∙ h.same_margin) in
      let absorbed : absorb w m ≡ v4 =
        ap (λ c. stay w (move_to_next_period (if c then w else imported w m))) early
        ∙ ap (λ y. stay w (move_to_next_period y)) (sym e.taken)
        ∙ ap (stay w) moved in
      let same_solver : v4 ≡ v' = cc in
      let same_sharer : z.1 ≡ x' = cc in
      let same_stop : not (should_be_terminated D B v4 z.1 used now) ≡ goes_on = cc in
      let stage : (if Sharer.should_be_terminated z.1 (u.periods + 1) then told else searching)
          ≡ (if goes_on then searching else told) =
        told_or_searching D B (Sharer.should_be_terminated z.1 (u.periods + 1))
        ∙ ap (λ c. if c then searching else told) (ap not (sym test) ∙ same_stop) in
      let ended : ℕ → Sharer → Solver D.Double B.State → Stage → State (Solver D.Double B.State) =
        λ i y v s. with_worker y f u.thn v i s in
      Steps-append _ _ _ e.steps (
        step (move-at (framework D B b n margin first) f z.1 u.thn e.upto u.periods w m l e.enough)
          (subst (Steps (framework D B b n margin first) _)
            (ap
                (λ v.
                  ended (u.periods + 1) z.1 v
                    (if Sharer.should_be_terminated z.1 (u.periods + 1) then told else searching))
                (absorbed ∙ same_solver)
              ∙ ap (ended (u.periods + 1) z.1 v') stage
              ∙ ap (λ y. ended (u.periods + 1) y v' (if goes_on then searching else told))
                  same_sharer)
            (step
              (check-at (framework D B b n margin first) f z.1 u.thn (u.periods + 1) (absorb w m) l)
              none_left)))

  -- One call of `checkPeriod` by a thread whose search has reached the end of a period, while no other
  -- thread runs: if it returns, all that it does to the shared state and to the thread is what some
  -- steps of that thread in a launch do, and the thread goes on or stops as the call says. The
  -- thread is in deterministic mode, without the adaptive period length and below its limits on
  -- time and memory, and its queue is valid.
  pub check_period-Steps :
      (f : ℕ → Worker (Solver D.Double B.State)) (x x' : Sharer) (v v' : Solver D.Double B.State)
      (used now : D.Double) (q : PrdClausesQueue) (k : ℕ) (goes_on : Bool)
      → (b.search v).thn < n
      → n < 2 ^ 31
      → x.num_threads ≡ n
      → b.answer v ≡ none
      → AtEnd D B margin used now (b.search v)
      → get_elem? x.pcqm (b.search v).thn ≡ some q
      → IsQueue k q
      → check_period D B (b.search v) x used now ≡ done (v', x', goes_on)
      → Steps
          (framework D B b n margin first)
          (with_worker x f ((b.search v).thn) v ((b.search v).periods) searching)
          (with_worker x' f
            ((b.search v).thn)
            v'
            ((b.search v).periods + 1)
            (if goes_on then searching else told))
  check_period-Steps f x x' v v' used now q k goes_on l few nt a h at valid run =
      let (w, x1, c, run1) =
        complete-Completed D B b n margin first f x v used now q k (v', x', goes_on) l a h at valid
          run in
      step c.steps (
        import-Steps f x1 x' (b.search v) w v' used now goes_on l few (c.same_num ∙ nt) h c.kept
          run1)
