-- ===== src/System/Launch/Solvers/Runs.antt =====
-- `checkPeriod` comes to its end when the sets that are due are there.
use dps_pos.Base.{
  ℕ, ◌+◌, ◌-◌, ◌^◌, ◌<◌, ◌≤◌, ◌≡◌, refl, sym, ap, ◌∙◌, none, some, true, false, not, Bool, set,
  length, get_elem?, u64, sub_u64, ltb, if◌then◌else◌, arith, Bool-cases, inl, inr,
  get_elem?-set_self, get_elem?_lt, ◌%◌, ◌≢◌,
}
use dps_pos.Base.Result.{Result}
use dps_pos.Period.Queue.{PrdClausesQueue}
use dps_pos.Period.Queue
use dps_pos.Period.Queue.Invariant.{IsQueue}
use dps_pos.Period.Manager.{get_at}
use dps_pos.Parallel.Sharer.{Sharer}
use dps_pos.Parallel.Sharer
use dps_pos.Solver.{Doubles, BaseSolver, Solver}
use dps_pos.Solver.Period.{
  can_move_to_next_period, move_to_next_period, get_new_period_length, should_be_terminated,
  export_selected_clauses, check_period,
}
use dps_pos.Solver.Import.{done, lift, ◌>>=◌, import_clauses}
use dps_pos.System.Publish.{open_last}
use dps_pos.System.Publish.Last.{length-set_last}
use dps_pos.System.Ring.{ring_ne, ring_lt}
use dps_pos.System.Launch.Solvers.Simulation.{fields_as, check_period-Steps}
use dps_pos.Period.Queue.Addition.{complete_addition-IsQueue}
use dps_pos.System.Launch.{searching, told, Worker}
use dps_pos.System.Launch.Alone.{with_worker}
use dps_pos.System.Launch.Ending.{Steps}
use dps_pos.System.Launch.Solvers.{selection, after_export, held, imported, Search, framework}
use dps_pos.System.Launch.Solvers.Check.{
  AtEnd, new_length_fixed, after_import, rest_of, check_period-rest_of,
}
use dps_pos.System.Launch.Solvers.Ready.{
  Due, Due-set, import_targets-done, completes, Filled-IsQueue, Filled-add_clauses,
}
use dps_pos.System.Launch.Solvers.Fields.{Keeps, after_export-Keeps}
use dps_pos.System.Launch.Solvers.Exchange.{export_selected_clauses_lem}
use dps_pos.System.Launch.Solvers.Import.{some_last, import_as}

module _ (D : Doubles) (B : BaseSolver) (b : Search D B) (n margin : ℕ)
    (first : ℕ → Solver D.Double B.State) where
  import_as-done :
      (x : Sharer) (t r : ℕ) (v : Solver D.Double B.State)
      → t < n
      → n < 2 ^ 31
      → x.num_threads ≡ n
      → (margin ≤ r → (u : ℕ) → u < n → u ≢ t → Due x t (r - margin) u)
      → (z : Solver D.Double B.State × Sharer × Bool) × (import_as D B b n margin first t r margin
            false 0 v x
          ≡ done z)
        × (z.0.mem_acc_lim ≡ v.mem_acc_lim)
        × (z.0.num_mem_accesses ≡ v.num_mem_accesses)
  import_as-done x t r v l few nt due = elim (Bool-cases (ltb r margin)) [
    | inl early ↦ ((v, x, false), rw early refl, refl, refl)
    | inr in_time ↦
        let (y, run) =
          import_targets-done (framework D B b n margin first) (x.num_threads - 1) 1 t (r - margin)
            x (held v) l few (omega arith) (omega (arith, nt, l)) nt
            (λ j low lj.
              due (ground arith) ((t + j) % n) (ring_lt n t j l lj)
                (ring_ne n t j l lj (omega arith))) in
        ((imported v y.1, y.0, true), rw in_time (rw run refl), refl, refl)
  ]

  move_to_next_period-done :
      (v : Solver D.Double B.State)
      → can_move_to_next_period v ≡ true
      → (v' : Solver D.Double B.State) × (move_to_next_period v ≡ Result.ok v')
  unfolding move_to_next_period
  move_to_next_period-done v e = (
    record v {
      num_mem_accesses = sub_u64 v.num_mem_accesses v.mem_acc_lim;
      periods = u64 (v.periods + 1);
      mem_acc_lim = v.next_mem_acc_lim;
    },
    rw e refl,
  )

  can_move_same :
      (v u : Solver D.Double B.State)
      → v.mem_acc_lim ≡ u.mem_acc_lim
      → v.num_mem_accesses ≡ u.num_mem_accesses
      → can_move_to_next_period v ≡ can_move_to_next_period u
  unfolding can_move_to_next_period
  can_move_same v u e k = rw (e, k) refl

  -- What follows the export, when each of its parts comes to its end.
  rest_of-done :
      (x1 x2 : Sharer) (v v' : Solver D.Double B.State) (used now : D.Double) (t len : ℕ)
      (z : Solver D.Double B.State × Sharer × Bool)
      → get_new_period_length D B v ≡ (v, len)
      → Sharer.complete_curr_period x1 t len ≡ Result.ok x2
      → import_clauses v x2 ≡ done z
      → move_to_next_period z.0 ≡ Result.ok v'
      → rest_of D B used now t (v, x1)
        ≡ done (v', z.1, not (should_be_terminated D B v' z.1 used now))
  rest_of-done x1 x2 v v' used now t len z fixed comp imports moved =
      ap
        (λ g. lift (Sharer.complete_curr_period x1 t g.1) >>= λ s.
          import_clauses g.0 s >>= after_import D B used now)
        fixed
      ∙ ap (λ g. lift g >>= λ s. import_clauses v s >>= after_import D B used now) comp
      ∙ ap (λ g. g >>= after_import D B used now) imports
      ∙ ap (λ g. lift g >>= λ y. done (y, z.1, not (should_be_terminated D B y z.1 used now))) moved

  -- The same, with what the other threads have to have done.
  exported-done :
      (x : Sharer) (u v : Solver D.Double B.State) (used now : D.Double) (q q1 : PrdClausesQueue)
      (k : ℕ)
      → u.thn < n
      → n < 2 ^ 31
      → x.num_threads ≡ n
      → AtEnd D B margin used now u
      → Keeps u v
      → get_elem? x.pcqm u.thn ≡ some q
      → IsQueue k q1
      → k + length q1.queue < 2 ^ 64
      → (margin ≤ u.periods → (w : ℕ) → w < n → w ≢ u.thn → Due x u.thn (u.periods - margin) w)
      → (res : Solver D.Double B.State × Sharer × Bool) × (rest_of D B used now u.thn
            (v, record x { pcqm = set x.pcqm u.thn q1 })
          ≡ done res)
  exported-done x u v used now q q1 k l few nt h keeps at valid room due =
      let len = v.mem_acc_lim in
      let fixed : get_new_period_length D B v ≡ (v, len) =
        new_length_fixed D B v (ap (λ o. o.adpt_prd) keeps.options ∙ h.fixed_length) in
      let x1 : Sharer = record x { pcqm = set x.pcqm u.thn q1 } in
      let (q2, closed, _) = complete_addition-IsQueue k len q1 valid room in
      let x2 : Sharer = record x1 { pcqm = set x1.pcqm u.thn q2 } in
      let comp : Sharer.complete_curr_period x1 u.thn len ≡ Result.ok x2 =
        completes x1 u.thn len q1 q2
          (get_elem?-set_self x.pcqm u.thn q1 (get_elem?_lt x.pcqm u.thn q at)) closed in
      let (z, imports, same_limit, same_accesses) =
        import_as-done x2 u.thn u.periods v l few nt (λ low w lw away.
          let other : u.thn ≢ w = λ e. away (sym e) in
          Due-set x1 u.thn (u.periods - margin) w u.thn q2 other
            (Due-set x u.thn (u.periods - margin) w u.thn q1 other (due low w lw away))) in
      let (v', moved) = move_to_next_period-done z.0 (
        can_move_same z.0 u (same_limit ∙ keeps.mem_acc_lim)
          (same_accesses ∙ keeps.num_mem_accesses)
        ∙ h.at_end) in
      (
        (v', z.1, not (should_be_terminated D B v' z.1 used now)),
        rest_of-done x1 x2 v v' used now u.thn len z fixed comp
            (fields_as D B b n margin first x2 u v used now h keeps ∙ imports) moved,
      )

  exported-check_period :
      (u : Solver D.Double B.State) (x : Sharer) (used now : D.Double)
      (y : Solver D.Double B.State × Sharer) (res : Solver D.Double B.State × Sharer × Bool)
      → can_move_to_next_period u ≡ true
      → export_selected_clauses D B u x ≡ done y
      → rest_of D B used now u.thn y ≡ done res
      → check_period D B u x used now ≡ done res
  exported-check_period u x used now y res e exported rest =
      check_period-rest_of D B u x used now e
      ∙ ap (λ m. m >>= rest_of D B used now u.thn) exported
      ∙ rest

  -- The period check of a thread at the end of a period comes to its end, in deterministic mode and
  -- without the adaptive period length, when its own queue is valid and has a period number to
  -- spare and every other thread has completed the set that is due.
  check_period-done :
      (x : Sharer) (u : Solver D.Double B.State) (used now : D.Double) (q : PrdClausesQueue) (k : ℕ)
      → u.thn < n
      → n < 2 ^ 31
      → x.num_threads ≡ n
      → AtEnd D B margin used now u
      → get_elem? x.pcqm u.thn ≡ some q
      → IsQueue k q
      → k + length q.queue < 2 ^ 64
      → (margin ≤ u.periods → (w : ℕ) → w < n → w ≢ u.thn → Due x u.thn (u.periods - margin) w)
      → (res : Solver D.Double B.State × Sharer × Bool) × (check_period D B u x used now ≡ done res)
  check_period-done x u used now q k l few nt h at valid room due =
      let (p, lst) = some_last q.queue valid.some_set in
      let still_open = open_last q.next_period k q.queue p lst valid.sets in
      let (p', add, exported) =
        export_selected_clauses_lem D B u x q p (get_at x.pcqm u.thn q at) lst still_open in
      let (res, rest) =
        exported-done x u
          (after_export D B u (selection u.exp_clauses_buf u.exp_lits_lim).1
            (selection u.exp_clauses_buf u.exp_lits_lim).2)
          used now q (record q { queue = Queue.set_last q.queue p' }) k l few nt h
          (after_export-Keeps D B u (selection u.exp_clauses_buf u.exp_lits_lim).1
            (selection u.exp_clauses_buf u.exp_lits_lim).2)
          at
          (Filled-IsQueue k (selection u.exp_clauses_buf u.exp_lits_lim).0 q p p' valid lst
            (Filled-add_clauses (selection u.exp_clauses_buf u.exp_lits_lim).0 p p' still_open add))
          (omega (arith, length-set_last q.queue p', room)) due in
      (res, exported-check_period u x used now _ res h.at_end exported rest)

  -- One call of `checkPeriod` by a thread whose search has reached the end of a period, while no other
  -- thread runs. The thread is in deterministic mode, without the adaptive period length and below
  -- its limits on time and memory; its queue is valid and has a period number to spare; and every
  -- other thread has completed the set that is due. Then the call comes to its end, without a
  -- failure and without waiting, and what it does to the shared state and to the thread is what
  -- steps of that thread in a launch do, after which the thread goes on or stops as the call says.
  pub check_period-launch :
      (f : ℕ → Worker (Solver D.Double B.State)) (x : Sharer) (v : Solver D.Double B.State)
      (used now : D.Double) (q : PrdClausesQueue) (k : ℕ)
      → (b.search v).thn < n
      → n < 2 ^ 31
      → x.num_threads ≡ n
      → b.answer v ≡ none
      → AtEnd D B margin used now (b.search v)
      → get_elem? x.pcqm (b.search v).thn ≡ some q
      → IsQueue k q
      → k + length q.queue < 2 ^ 64
      → (margin ≤ (b.search v).periods
          → (w : ℕ) → w < n
          → w ≢ (b.search v).thn
          → Due x (b.search v).thn ((b.search v).periods - margin) w)
      → (v' : Solver D.Double B.State) × (x' : Sharer) × (goes_on : Bool) × (check_period D B
            (b.search v)
            x
            used
            now
          ≡ done (v', x', goes_on))
        × Steps
            (framework D B b n margin first)
            (with_worker x f ((b.search v).thn) v ((b.search v).periods) searching)
            (with_worker x' f
              ((b.search v).thn)
              v'
              ((b.search v).periods + 1)
              (if goes_on then searching else told))
  check_period-launch f x v used now q k l few nt a h at valid room due =
      let ((v', x', goes_on), run) =
        check_period-done x (b.search v) used now q k l few nt h at valid room due in
      (
        v',
        x',
        goes_on,
        run,
        check_period-Steps D B b n margin first f x x' v v' used now q k goes_on l few nt a h at
            valid run,
      )
