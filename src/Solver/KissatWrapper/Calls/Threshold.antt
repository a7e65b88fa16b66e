-- ===== src/Solver/KissatWrapper/Calls/Threshold.antt =====
-- Which learnt clauses a Kissat thread exports.
use dps_pos.Base.{ℕ, ◌≡◌, ◌<◌, ◌≤◌, ◌^◌, ◌⊎◌, inl, inr, true, false, ltb, Bool-cases, arith}
use dps_pos.Solver.{Doubles, Quantiles}
use dps_pos.Solver.Threshold.{get_lbd_upperbound}
use dps_pos.Solver.KissatWrapper.Calls.{KissatWrapper, get_exp_lbd_threshold, should_be_exported}

-- Unsigned integers of 32 bits are exact as floating-point numbers.
pub record Exact (D : Doubles) : Type 0 where
  pub back : (n : ℕ) → n < 2 ^ 32 → D.to_uint (D.of_uint n) ≡ n
  pub order : (m n : ℕ) → m < 2 ^ 32 → n < 2 ^ 32 → D.lt (D.of_uint m) (D.of_uint n) ≡ ltb m n

module _ (D : Doubles) (Q : Quantiles D.Double) where
  -- Where the limit on the LBD and the quantile are whole numbers `lim` and `upper` of 32 bits: a
  -- learnt clause is exported exactly if its LBD is at most both and neither is 0. So a limit of 0
  -- stops all exports. The clause itself counts for the quantile.
  pub should_be_exported_lem :
      (v : KissatWrapper D.Double Q.Dist) (confs lbd lim upper : ℕ)
      → Exact D
      → lim < 2 ^ 32
      → upper < 2 ^ 32
      → v.exp_clause_lbd_lim ≡ D.of_uint lim
      → get_lbd_upperbound D Q confs v.exp_lbdq_lim (Q.insert lbd v.lbd_dist) ≡ D.of_uint upper
      → (((should_be_exported D Q v confs lbd).1 ≡ true)
          × (0 < lim)
          × (0 < upper)
          × (lbd ≤ lim)
          × (lbd ≤ upper))
        ⊎ (((should_be_exported D Q v confs lbd).1 ≡ false)
            × ((lim ≡ 0) ⊎ ((upper ≡ 0) ⊎ ((lim < lbd) ⊎ (upper < lbd)))))
  unfolding should_be_exported get_exp_lbd_threshold
  should_be_exported_lem v confs lbd lim upper x small small' at_lim at_upper = rw at_lim (
      rw (at_upper, get_exp_lbd_threshold)
        (rw (x.order upper lim small' small) (elim (Bool-cases (ltb upper lim)) [
          | inl below ↦ rw below (rw (x.back upper small') (ground arith))
          | inr above ↦ rw above (rw (x.back lim small) (ground arith))
        ])))
