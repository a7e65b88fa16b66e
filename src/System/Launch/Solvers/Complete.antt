-- ===== src/System/Launch/Solvers/Complete.antt =====
-- A period check up to the end of `completeCurrPeriod`, which is one step.
use dps_pos.Base.{
  ℕ, ◌<◌, ◌≡◌, sym, ap, subst, ◌∙◌, none, some, Bool, set, get_elem?, get_elem?-set_self,
  get_elem?_lt,
}
use dps_pos.Period.Queue.{PrdClausesQueue}
use dps_pos.Period.Queue
use dps_pos.Period.Queue.Invariant.{IsQueue}
use dps_pos.Period.Manager.{get_at}
use dps_pos.Parallel.Sharer.{Sharer}
use dps_pos.Parallel.Sharer
use dps_pos.Solver.{Doubles, BaseSolver, Solver}
use dps_pos.Solver.Period.{get_new_period_length, check_period}
use dps_pos.Solver.Import.{done, lift, ◌>>=◌, import_clauses}
use dps_pos.System.{publish}
use dps_pos.System.Publish.{open_last}
use dps_pos.System.Launch.{searching, taking, Worker, Step}
use dps_pos.System.Launch.Alone.{finish-at, with_worker}
use dps_pos.System.Launch.Solvers.{selection, after_export, held, Search, framework}
use dps_pos.System.Launch.Solvers.Check.{
  AtEnd, new_length_fixed, after_import, rest_of, check_period-rest_of,
}
use dps_pos.System.Launch.Solvers.Fields.{Keeps, after_export-Keeps}
use dps_pos.System.Launch.Solvers.Exchange.{bind_done, lift_done, export_selected_clauses_lem}
use dps_pos.System.Launch.Solvers.Import.{set_twice, some_last, complete_curr_period-ok}

module _ (D : Doubles) (B : BaseSolver) (b : Search D B) (n margin : ℕ)
    (first : ℕ → Solver D.Double B.State) where
  -- Up to the end of `completeCurrPeriod`.
  pub record Completed (f : ℕ → Worker (Solver D.Double B.State)) (x : Sharer)
      (v w : Solver D.Double B.State) (x' : Sharer) : Type 0 where
    pub kept : Keeps (b.search v) w
    pub same_num : x'.num_threads ≡ x.num_threads
    pub steps :
        Step
          (framework D B b n margin first)
          (with_worker x f ((b.search v).thn) v ((b.search v).periods) searching)
          (with_worker x' f ((b.search v).thn) w ((b.search v).periods) (taking 1 (held w)))

  pub complete-Completed :
      (f : ℕ → Worker (Solver D.Double B.State)) (x : Sharer) (v : Solver D.Double B.State)
      (used now : D.Double) (q : PrdClausesQueue) (k : ℕ)
      (res : Solver D.Double B.State × Sharer × Bool)
      → (b.search v).thn < n
      → b.answer v ≡ none
      → AtEnd D B margin used now (b.search v)
      → get_elem? x.pcqm (b.search v).thn ≡ some q
      → IsQueue k q
      → check_period D B (b.search v) x used now ≡ done res
      → (w : Solver D.Double B.State) × (x' : Sharer) × Completed f x v w x'
        × ((import_clauses w x' >>= after_import D B used now) ≡ done res)
  unfolding publish
  complete-Completed f x v used now q k res l a h at valid run =
      let u = b.search v in
      let (p, lst) = some_last q.queue valid.some_set in
      let (p', add, exported) =
        export_selected_clauses_lem D B u x q p (get_at x.pcqm u.thn q at) lst
          (open_last q.next_period k q.queue p lst valid.sets) in
      let q1 : PrdClausesQueue = record q { queue = Queue.set_last q.queue p' } in
      let ae =
        after_export D B u (selection u.exp_clauses_buf u.exp_lits_lim).1
          (selection u.exp_clauses_buf u.exp_lits_lim).2 in
      let new = get_new_period_length D B ae in
      let x1 : Sharer = record x { pcqm = set x.pcqm u.thn q1 } in
      let keeps : Keeps u ae =
        after_export-Keeps D B u (selection u.exp_clauses_buf u.exp_lits_lim).1
          (selection u.exp_clauses_buf u.exp_lits_lim).2 in
      let fixed : new ≡ (ae, ae.mem_acc_lim) =
        new_length_fixed D B ae (ap (λ o. o.adpt_prd) keeps.options ∙ h.fixed_length) in
      let run1 : rest_of D B used now u.thn (ae, x1) ≡ done res =
        sym (ap (λ m. m >>= rest_of D B used now u.thn) exported)
        ∙ sym (check_period-rest_of D B u x used now h.at_end)
        ∙ run in
      let (x2, comp, run2) =
        bind_done (lift (Sharer.complete_curr_period x1 u.thn new.1)) _ res run1 in
      let (q2, closed, same) =
        complete_curr_period-ok x1 x2 u.thn new.1 q1
          (get_elem?-set_self x.pcqm u.thn q1 (get_elem?_lt x.pcqm u.thn q at))
          (lift_done (Sharer.complete_curr_period x1 u.thn new.1) x2 comp) in
      let all : x2 ≡ record x { pcqm = set x.pcqm u.thn q2 } =
        same ∙ ap (λ qs. record x { pcqm = qs }) (set_twice x.pcqm u.thn q1 q2) in
      (
        new.0,
        x2,
        record {
          kept = subst (Keeps u) (sym (ap (λ y. y.0) fixed)) keeps;
          same_num = ap (λ y. y.num_threads) all;
          steps =
              subst
                (λ y.
                  Step (framework D B b n margin first)
                    (with_worker x f u.thn v u.periods searching)
                    (with_worker y f u.thn new.0 u.periods (taking 1 (held new.0))))
                (sym all)
                (finish-at (framework D B b n margin first) f x u.thn u.periods v q q2 l a
                  (get_at x.pcqm u.thn q at) (rw lst (rw add closed)));
        },
        run2,
      )
