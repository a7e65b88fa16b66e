-- ===== src/Solver/Period/Schedule.antt =====
-- When a solver moves on, and when it applies the clauses that it has imported.
use dps_pos.Base.{
  ℕ, ◌+◌, ◌/◌, ◌≤◌, ◌<◌, ◌^◌, ◌≡◌, ◌⊎◌, inl, inr, refl, true, false, length, u64, sub_u64, leb,
  arith, Bool-cases,
}
use dps_pos.Base.Result.{ok, fault}
use dps_pos.Solver.{Solver}
use dps_pos.Solver.Import.{clamp}
use dps_pos.Solver.Period.{
  can_move_to_next_period, move_to_next_period, is_due, should_apply_imported_clauses,
}

module _ {Double State : Type 0} (v : Solver Double State) where
  -- A period is left only when its memory accesses are used up; the accesses beyond it count for the
  -- next period, and the period number goes up by one.
  pub move_to_next_period_lem :
      v.num_mem_accesses < 2 ^ 64
      → v.periods + 1 < 2 ^ 64
      → ((v.num_mem_accesses < v.mem_acc_lim) × (move_to_next_period v ≡ fault))
        ⊎ ((w : Solver Double State) × (move_to_next_period v ≡ ok w)
            × (w.num_mem_accesses + v.mem_acc_lim ≡ v.num_mem_accesses)
            × (w.periods ≡ v.periods + 1)
            × (w.mem_acc_lim ≡ v.next_mem_acc_lim))
  unfolding move_to_next_period can_move_to_next_period
  move_to_next_period_lem h k = elim (Bool-cases (leb v.mem_acc_lim v.num_mem_accesses)) [
    | inl enough ↦ inr (
      record v {
        num_mem_accesses = sub_u64 v.num_mem_accesses v.mem_acc_lim;
        periods = u64 (v.periods + 1);
        mem_acc_lim = v.next_mem_acc_lim;
      },
      rw enough,
      ground arith,
      omega arith,
      refl,
    )
    | inr few ↦ inl (ground arith, rw few)
  ]

  -- Imported clauses are applied when there is a unit clause, or enough other clauses for each
  -- thread, and not less than `fapp_periods` periods after they were applied last; then the
  -- period is noted, and nothing else changes. In all other cases nothing changes at all.
  pub should_apply_imported_clauses_lem :
      (n : ℕ)
      → v.last_fapp_period + v.fapp_periods < 2 ^ 64
      → ((should_apply_imported_clauses v n ≡ (record v { last_fapp_period = v.periods }, true))
          × (v.last_fapp_period + v.fapp_periods ≤ v.periods)
          × ((0 < length v.imported_unit_clauses)
              ⊎ ((0 < v.fapp_clauses) × (v.fapp_clauses ≤ length v.imported_clauses / n))))
        ⊎ ((should_apply_imported_clauses v n ≡ (v, false))
            × ((v.periods < v.last_fapp_period + v.fapp_periods)
                ⊎ ((length v.imported_unit_clauses ≡ 0)
                    × ((v.fapp_clauses ≡ 0) ⊎ (length v.imported_clauses / n < v.fapp_clauses)))))
  unfolding should_apply_imported_clauses is_due
  should_apply_imported_clauses_lem n h = ground arith

-- The adapted length keeps to each bound that is not 0, where the lower is not above the upper; and it
-- is the mean itself unless that breaks a bound.
pub clamp_bounds :
    (lb ub n : ℕ)
    → (lb ≤ ub) ⊎ (ub ≡ 0)
    → (lb ≤ clamp lb ub n)
      × ((ub ≡ 0) ⊎ (clamp lb ub n ≤ ub))
      × ((clamp lb ub n ≡ n) ⊎ ((n < lb) ⊎ ((0 < ub) × (ub < n))))
unfolding clamp
clamp_bounds lb ub n h = (ground arith, ground arith, ground arith)
