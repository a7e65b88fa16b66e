-- ===== src/Solver/Report/Last.antt =====
-- A thread that ends lets no other thread wait for its last period.
use dps_pos.Base.{
  ℕ, ◌+◌, ◌^◌, ◌<◌, ◌≡◌, inl, inr, refl, ap, ◌∙◌, set, some, get_elem?, length, true, Bool, ◌||◌,
  Bool-cases, false, get_elem?-set_self, get_elem?_lt,
}
use dps_pos.Base.Int.{pos}
use dps_pos.Base.Result.{ok}
use dps_pos.Period.Queue.{PrdClausesQueue}
use dps_pos.Period.Queue.Invariant.{IsQueue}
use dps_pos.Period.Queue.Addition.{Addition, complete_addition-IsQueue}
use dps_pos.Period.Queue.{complete_addition}
use dps_pos.Period.Manager.{get_at}
use dps_pos.Parallel.Sharer.{Sharer, SatResult, same, unknown, is_better, i_finished}
use dps_pos.Parallel.Sharer
use dps_pos.Solver.{Doubles, BaseSolver, Solver}
use dps_pos.Solver.Period.{get_new_period_length}
use dps_pos.Solver.Report.{report}

same_queues :
    (s : Sharer) (status : SatResult) (prd thn : ℕ)
    → (same status unknown || same s.final_result unknown || same s.final_result status) ≡ true
    → (r : Sharer × Bool) × (i_finished s status prd (pos thn) ≡ ok r) × (r.0.pcqm ≡ s.pcqm)
unfolding i_finished
same_queues s status prd thn h = elim (Bool-cases (is_better s status prd (pos thn))) [
  | inl wins ↦ (
    (
      record s {
        sol_found = true;
        winner_id = pos thn;
        winner_period = prd;
        final_result = status;
      },
      true,
    ),
    rw h (rw wins refl),
    refl,
  )
  | inr loses ↦ ((s, false), rw h (rw loses refl), refl)
]

complete_curr_period_lem :
    (s : Sharer) (thn len : ℕ) (q q' : PrdClausesQueue)
    → get_elem? s.pcqm thn ≡ some q
    → complete_addition q len ≡ ok q'
    → Sharer.complete_curr_period s thn len ≡ ok (record s { pcqm = set s.pcqm thn q' })
unfolding Sharer.complete_curr_period
complete_curr_period_lem s thn len q q' at run = rw (get_at s.pcqm thn q at) (rw run refl)

module _ (D : Doubles) (B : BaseSolver) where
  -- The end of `solve`, for a thread whose queue is valid and has a period number to spare, and whose
  -- answer does not contradict an earlier one: no step fails, the queue stays valid, and its last
  -- set is completed, with a new one after it.
  pub report-IsQueue :
      (v : Solver D.Double B.State) (s : Sharer) (status : SatResult) (f : ℕ) (q : PrdClausesQueue)
      → (same status unknown || same s.final_result unknown || same s.final_result status) ≡ true
      → get_elem? s.pcqm v.thn ≡ some q
      → IsQueue f q
      → f + length q.queue < 2 ^ 64
      → (r : Solver D.Double B.State × Sharer) × (q' : PrdClausesQueue) × (report D B v s status
          ≡ ok r)
        × (get_elem? r.1.pcqm v.thn ≡ some q')
        × Addition f (get_new_period_length D B v).1 q q'
  unfolding report
  report-IsQueue v s status f q fits at valid room =
      let (r, run, same_q) = same_queues s status v.periods v.thn fits in
      let (q', run_q, a) =
        complete_addition-IsQueue f (get_new_period_length D B v).1 q valid room in
      (
        ((get_new_period_length D B v).0, record r.0 { pcqm = set r.0.pcqm v.thn q' }),
        q',
        rw run (
            rw
              (complete_curr_period_lem r.0 v.thn (get_new_period_length D B v).1 q q'
                (ap (λ x. get_elem? x v.thn) same_q ∙ at) run_q)
              refl),
        get_elem?-set_self r.0.pcqm v.thn q'
            (get_elem?_lt r.0.pcqm v.thn q (ap (λ x. get_elem? x v.thn) same_q ∙ at)),
        a,
      )
