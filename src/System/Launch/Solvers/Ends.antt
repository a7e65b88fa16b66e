-- ===== src/System/Launch/Solvers/Ends.antt =====
-- The end of `solve` is a sequence of steps of its thread.
use dps_pos.Base.{
  ℕ, ◌+◌, ◌^◌, ◌<◌, ◌≡◌, refl, sym, ap, ◌∙◌, some, Option, true, Bool, ◌||◌, length, get_elem?,
  false, if◌then◌else◌,
}
use dps_pos.Base.Int.{pos}
use dps_pos.Base.Result.{Result, ok, fault, ◌>>=◌}
use dps_pos.Period.Queue.{PrdClausesQueue}
use dps_pos.Period.Queue.Invariant.{IsQueue}
use dps_pos.Parallel.Sharer.{Sharer, SatResult, unknown, same, i_finished}
use dps_pos.Parallel.Sharer
use dps_pos.Solver.{Doubles, BaseSolver, Solver}
use dps_pos.Solver.Period.{get_new_period_length}
use dps_pos.Solver.Report.{report}
use dps_pos.Solver.Report.Last.{report-IsQueue}
use dps_pos.System.Launch.{searching, told, stopped, Worker}
use dps_pos.System.Launch.Alone.{solve-at, give_up-at, close-at, with_worker}
use dps_pos.System.Launch.Ending.{Steps, none_left, step}
use dps_pos.System.Launch.Solvers.{Search, framework}

bind_ok {ℓ κ} :
    {A : Type ℓ} {B : Type κ} (m : Result A) (f : A → Result B) (b : B)
    → (m >>= f) ≡ ok b
    → (a : A) × (m ≡ ok a) × (f a ≡ ok b)
bind_ok (ok a) f b e = (a, refl, e)
bind_ok fault f b e = absurd (cc)

-- Why a thread ends: it was told to, without an answer, or its search has one.
abbrev pub Ends : Bool → SatResult → Option SatResult → Type 0
Ends true status a = status ≡ unknown
Ends false status a = a ≡ some status

module _ (D : Doubles) (B : BaseSolver) where
  -- The two calls at the end of `solve`.
  report_parts :
      (u : Solver D.Double B.State) (x : Sharer) (status : SatResult)
      (r : Solver D.Double B.State × Sharer)
      → report D B u x status ≡ ok r
      → (y : Sharer × Bool) × (i_finished x status u.periods (pos u.thn) ≡ ok y)
        × (Sharer.complete_curr_period y.0 u.thn (get_new_period_length D B u).1 ≡ ok r.1)
  unfolding report
  report_parts u x status r run =
      let (y, told_at, run1) = bind_ok (i_finished x status u.periods (pos u.thn)) _ r run in
      let (s, closed, run2) =
        bind_ok (Sharer.complete_curr_period y.0 u.thn (get_new_period_length D B u).1) _ r run1 in
      let both : ok ((get_new_period_length D B u).0, s) ≡ ok r = run2 in
      let same_sharer : s ≡ r.1 = cc in (y, told_at, closed ∙ ap ok same_sharer)

module _ (D : Doubles) (B : BaseSolver) (b : Search D B) (n margin : ℕ)
    (first : ℕ → Solver D.Double B.State) where
  -- The end of `solve` of a thread, while no other thread runs: its search has found an answer, or
  -- it was told to stop and has none. Its queue is valid and has a period number to spare, and its
  -- answer does not contradict that of the sharer. Then the call comes to its end without a
  -- failure, and what it does to the shared state is what steps of that thread in a launch do,
  -- after which the thread has stopped.
  pub report-launch :
      (f : ℕ → Worker (Solver D.Double B.State)) (x : Sharer) (v : Solver D.Double B.State)
      (stops : Bool) (status : SatResult) (q : PrdClausesQueue) (k : ℕ)
      → (b.ended v).thn < n
      → (same status unknown || same x.final_result unknown || same x.final_result status) ≡ true
      → Ends stops status (b.answer v)
      → get_elem? x.pcqm (b.ended v).thn ≡ some q
      → IsQueue k q
      → k + length q.queue < 2 ^ 64
      → (r : Solver D.Double B.State × Sharer) × (report D B (b.ended v) x status ≡ ok r)
        × Steps
            (framework D B b n margin first)
            (with_worker x f
              ((b.ended v).thn)
              v
              ((b.ended v).periods)
              (if stops then told else searching))
            (with_worker r.1 f ((b.ended v).thn) v ((b.ended v).periods) stopped)
  report-launch f x v true status q k l fits a at valid room =
      let u = b.ended v in
      let (r, q', run, _, _) = report-IsQueue D B u x status k q fits at valid room in
      let (y, run_report, run_close) = report_parts D B u x status r run in
      (
        r,
        run,
        step
            (give_up-at (framework D B b n margin first) f x u.thn u.periods v y l
              (ap (λ s. i_finished x s u.periods (pos u.thn)) (sym a) ∙ run_report))
            (step
              (close-at (framework D B b n margin first) f y.0 u.thn u.periods v r.1 l run_close)
              none_left),
      )
  report-launch f x v false status q k l fits a at valid room =
      let u = b.ended v in
      let (r, q', run, _, _) = report-IsQueue D B u x status k q fits at valid room in
      let (y, run_report, run_close) = report_parts D B u x status r run in
      (
        r,
        run,
        step
            (solve-at (framework D B b n margin first) f x u.thn u.periods v status y l a
              run_report)
            (step
              (close-at (framework D B b n margin first) f y.0 u.thn u.periods v r.1 l run_close)
              none_left),
      )
