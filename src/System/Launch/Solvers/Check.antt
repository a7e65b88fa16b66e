-- ===== src/System/Launch/Solvers/Check.antt =====
-- `checkPeriod` in parts.
use dps_pos.Base.{
  ℕ, ◌+◌, ◌^◌, ◌<◌, ◌≡◌, refl, ap, ◌∙◌, true, false, not, Bool, u64, sub_u64, ◌||◌, if◌then◌else◌,
  arith, Bool-cases, inl, inr,
}
use dps_pos.Base.Result.{Result}
use dps_pos.Parallel.Sharer.{Sharer}
use dps_pos.Parallel.Sharer
use dps_pos.Solver.{Doubles, BaseSolver, Solver}
use dps_pos.Solver.Period.{
  can_move_to_next_period, move_to_next_period, get_new_period_length, over_limit,
  should_be_terminated, export_selected_clauses, check_period,
}
use dps_pos.Solver.Import.{Outcome, done, lift, ◌>>=◌, import_clauses}
use dps_pos.System.Launch.{searching, told}

or_false : (b : Bool) → (b || false) ≡ b
or_false true = refl
or_false false = refl

module _ (D : Doubles) (B : BaseSolver) where
  -- A thread at the end of a period, in deterministic mode, without the adaptive period length and
  -- below its limits on time and memory.
  pub record AtEnd (margin : ℕ) (used now : D.Double) (u : Solver D.Double B.State) : Type 0 where
    pub same_margin : u.margin ≡ margin
    pub deterministic : u.options.non_det ≡ false
    pub fixed_length : u.options.adpt_prd ≡ 0
    pub at_end : can_move_to_next_period u ≡ true
    pub in_limits : over_limit D B u used now ≡ false
    pub room : u.periods + 1 < 2 ^ 64

  pub new_length_fixed :
      (v : Solver D.Double B.State)
      → v.options.adpt_prd ≡ 0
      → get_new_period_length D B v ≡ (v, v.mem_acc_lim)
  unfolding get_new_period_length
  new_length_fixed v e = rw e refl

  -- The rest of a period check after the export, and after the import.
  abbrev pub after_import :
      D.Double
      → D.Double
      → Solver D.Double B.State × Sharer × Bool
      → Outcome (Solver D.Double B.State × Sharer × Bool)
  after_import used now z = lift (move_to_next_period z.0) >>= λ v.
      done (v, z.1, not (should_be_terminated D B v z.1 used now))

  abbrev pub rest_of :
      D.Double
      → D.Double
      → ℕ
      → Solver D.Double B.State × Sharer
      → Outcome (Solver D.Double B.State × Sharer × Bool)
  rest_of used now t y =
      let l = get_new_period_length D B y.0 in
      lift (Sharer.complete_curr_period y.1 t l.1) >>= λ s.
      import_clauses l.0 s >>= after_import used now

  pub check_period-rest_of :
      (u : Solver D.Double B.State) (x : Sharer) (used now : D.Double)
      → can_move_to_next_period u ≡ true
      → check_period D B u x used now ≡ (export_selected_clauses D B u x >>= rest_of used now u.thn)
  unfolding check_period
  check_period-rest_of u x used now e = rw e refl

  pub move_to_next_period-ok :
      (v v' : Solver D.Double B.State)
      → move_to_next_period v ≡ Result.ok v'
      → v' ≡ record v {
        num_mem_accesses = sub_u64 v.num_mem_accesses v.mem_acc_lim;
        periods = u64 (v.periods + 1);
        mem_acc_lim = v.next_mem_acc_lim;
      }
  unfolding move_to_next_period
  move_to_next_period-ok v v' run = elim (Bool-cases (can_move_to_next_period v)) [
    | inl ready ↦
        let both : Result.ok (record v {
          num_mem_accesses = sub_u64 v.num_mem_accesses v.mem_acc_lim;
          periods = u64 (v.periods + 1);
          mem_acc_lim = v.next_mem_acc_lim;
        })
            ≡ Result.ok v' =
          rw ready at run in
        cc
    | inr early ↦ let bad : Result.fault ≡ Result.ok v' = rw early at run in absurd (cc)
  ]

  over_limit_same :
      (v u : Solver D.Double B.State) (used now : D.Double)
      → v.start_real_time ≡ u.start_real_time
      → v.real_time_lim ≡ u.real_time_lim
      → v.mem_use_lim ≡ u.mem_use_lim
      → over_limit D B v used now ≡ over_limit D B u used now
  unfolding over_limit
  over_limit_same v u used now a b k = rw (a, b, k) refl

  -- The test at the end of the period check, for a thread that has kept its limits.
  pub should_be_terminated_lem :
      (u v v' : Solver D.Double B.State) (x : Sharer) (used now : D.Double)
      → over_limit D B u used now ≡ false
      → v.start_real_time ≡ u.start_real_time
      → v.real_time_lim ≡ u.real_time_lim
      → v.mem_use_lim ≡ u.mem_use_lim
      → v.periods ≡ u.periods
      → u.periods + 1 < 2 ^ 64
      → move_to_next_period v ≡ Result.ok v'
      → should_be_terminated D B v' x used now ≡ Sharer.should_be_terminated x (u.periods + 1)
  unfolding should_be_terminated
  should_be_terminated_lem u v v' x used now low a b k e room run =
      let moved = move_to_next_period-ok v v' run in
      let now_in : v'.periods ≡ u.periods + 1 =
        ap (λ y. y.periods) moved ∙ omega (arith, e, room) in
      let low' : over_limit D B v' used now ≡ false =
        over_limit_same v' u used now (ap (λ y. y.start_real_time) moved ∙ a)
          (ap (λ y. y.real_time_lim) moved ∙ b) (ap (λ y. y.mem_use_lim) moved ∙ k)
        ∙ low in
      ap (λ y. Sharer.should_be_terminated x y || over_limit D B v' used now) now_in
      ∙ ap (λ y. Sharer.should_be_terminated x (u.periods + 1) || y) low'
      ∙ or_false (Sharer.should_be_terminated x (u.periods + 1))

  pub told_or_searching :
      (b : Bool) → (if b then told else searching) ≡ (if not b then searching else told)
  told_or_searching true = refl
  told_or_searching false = refl
