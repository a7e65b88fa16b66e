-- ===== src/Simp/Filter.antt =====
-- Which learnt clauses a Glucose thread exports.
use dps_pos.Base.{
  ℕ, ◌≡◌, ◌≤◌, ◌⊎◌, inl, inr, refl, List, map, true, false, length, arith, Bool-cases,
}
use dps_pos.Period.Buffer.{ClauseBuffer}
use dps_pos.Period.Buffer
use dps_pos.Period.Buffer.Contract.{IsBuffer, add_clause-IsBuffer}
use dps_pos.Solver.{Doubles, Quantiles}
use dps_pos.Solver.Threshold.{get_lbd_upperbound}
use dps_pos.Simp.{SimpSolver, int_lit}
use dps_pos.Simp.Glucose.{GlucoseWrapper, is_skipped, export_clause}

module _ (k : SimpSolver) (D : Doubles) (Q : Quantiles D.Double) where
  -- A limit of 0 is none. A glue clause, of an LBD up to 2, passes the limit on the length and the
  -- quantile, and not the limit on the LBD.
  abbrev pub Passes : GlucoseWrapper D.Double Q.Dist → D.Double → ℕ → ℕ → Type 0
  Passes v upper len lbd =
      ((v.exp_clause_lbd_lim ≡ 0) ⊎ (lbd ≤ v.exp_clause_lbd_lim))
      × ((lbd ≤ 2)
          ⊎ (((v.exp_clause_len_lim ≡ 0) ⊎ (len ≤ v.exp_clause_len_lim))
              × (D.lt upper (D.of_uint lbd) ≡ false)))

  is_skipped_lem :
      (v : GlucoseWrapper D.Double Q.Dist) (upper : D.Double) (len lbd : ℕ)
      → ((is_skipped k D Q v upper len lbd ≡ false) × Passes v upper len lbd)
        ⊎ ((is_skipped k D Q v upper len lbd ≡ true) × (Passes v upper len lbd → ⊥))
  unfolding is_skipped
  is_skipped_lem v upper len lbd = elim (Bool-cases (D.lt upper (D.of_uint lbd))) [
    | inl high ↦ rw high (ground arith)
    | inr low ↦ rw low (ground arith)
  ]

  -- A learnt clause goes to the buffer, as signed numbers and under its length, exactly if it passes;
  -- otherwise the buffer stays. The bound by the quantile takes the clause itself into account. The
  -- buffer stays well formed.
  pub export_clause-Passes :
      (v : GlucoseWrapper D.Double Q.Dist) (confs : ℕ) (cls : List k.Lit) (lbd : ℕ)
      → IsBuffer v.exp_clauses_buf
      → IsBuffer (export_clause k D Q v confs cls lbd).exp_clauses_buf
        × ((Passes v
                (get_lbd_upperbound D Q confs v.exp_lbdq_lim (Q.insert lbd v.lbd_dist))
                (length cls)
                lbd
              × ((export_clause k D Q v confs cls lbd).exp_clauses_buf
                  ≡ Buffer.add_clause v.exp_clauses_buf (map (int_lit k) cls) (length cls)))
            ⊎ ((Passes v
                    (get_lbd_upperbound D Q confs v.exp_lbdq_lim (Q.insert lbd v.lbd_dist))
                    (length cls)
                    lbd
                  → ⊥)
                × ((export_clause k D Q v confs cls lbd).exp_clauses_buf ≡ v.exp_clauses_buf)))
  unfolding export_clause
  export_clause-Passes v confs cls lbd b =
      elim (is_skipped_lem v (get_lbd_upperbound D Q confs v.exp_lbdq_lim (Q.insert lbd v.lbd_dist))
        (length cls) lbd) [
          | inl (sent, p) ↦ rw sent (
            (add_clause-IsBuffer v.exp_clauses_buf (map (int_lit k) cls) (length cls) b).0,
            inl (p, refl),
          )
          | inr (skipped, not_p) ↦ rw skipped (b, inr (not_p, refl))
        ]
