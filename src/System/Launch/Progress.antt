-- ===== src/System/Launch/Progress.antt =====
-- The threads of a launch never wait for each other in a circle, and none waits for a thread that has
-- stopped.
use dps_pos.Base.{
  ℕ, suc, ◌+◌, ◌-◌, ◌%◌, ◌<◌, ◌≤◌, ◌≡◌, ◌⊎◌, refl, sym, ap, ◌∙◌, none, some, Option, ltb, arith,
  Bool-cases, inl, inr,
}
use dps_pos.Parallel.Sharer.{SatResult}
use dps_pos.Period.Manager.{get_at}
use dps_pos.Solver.Import.{Imports}
use dps_pos.System.{publish}
use dps_pos.System.Invariant.{closed}
use dps_pos.System.Progress.{least, publish_working, import_due}
use dps_pos.System.Launch.{
  Program, Stage, searching, taking, checking, told, reported, stopped, State, Step, finish, take,
  move, check, solve, give_up, answer_late, close, Reach,
}
use dps_pos.System.Launch.Shadow.{phase_of, work-searching}
use dps_pos.System.Launch.Answer.{i_finished-Settled}
use dps_pos.System.Launch.Invariant.{end, to_end, Expected, OnStage, Inv, end-Settled}
use dps_pos.System.Launch.Steps.{at_stage}
use dps_pos.System.Launch.Reports.{solve-Accepted}
use dps_pos.System.Launch.Late.{answer_late-report}
use dps_pos.System.Launch.LastPeriod.{close_runs}
use dps_pos.System.Launch.Plain.{FirstAnswer, FirstAnswer-Expected}
use dps_pos.System.Launch.Outcome.{Reach-Inv}

module _ {L : Type 0} (c : Program L) (first w : ℕ) (status : SatResult) where
  open c use {setup, answer, late_answer, last_len}
  open setup use {num_threads, margin, work}

  -- How far a thread is; one that has stopped is farther than all others can get.
  abbrev rank : ℕ → Stage → ℕ
  rank p searching = p
  rank p (taking i m) = suc p
  rank p checking = p
  rank p told = p
  rank p reported = p
  rank p stopped = first + margin + 5

  search-Step :
      (s : State L) (t : ℕ) (a : Option SatResult)
      → Expected c first w status
      → Inv c first w status s
      → t < num_threads
      → (s.workers t).stage ≡ searching
      → answer (s.workers t).local ≡ a
      → (s' : State L) × Step c s s'
  search-Step s t none h v l e a =
      let low = at_stage c first w status s t searching v l e in
      let (q, q', at, run) =
        publish_working (to_end c first w status) _ t v.valid l
          (ap (phase_of c (end c first w status) (s.workers t).local) e)
          (omega (arith, low, h.room)) in
      let same_work =
        work-searching c (end c first w status) (s.workers t).period (s.workers t).local a
          (omega (arith, low)) in
      (
        _,
        finish t l e a (get_at s.sharer.pcqm t q at)
            (sym (ap (λ y. publish q y.1) same_work) ∙ run),
      )
  search-Step s t (some x) h v l e a =
      let (r, _, run, _) = solve-Accepted c first w status s t x h v l e a in (_, solve t l e a run)

  -- A set that is due for thread `t` is there.
  due :
      (s : State L) (t u : ℕ) (g : Stage)
      → Expected c first w status
      → Inv c first w status s
      → u < num_threads
      → (s.workers u).stage ≡ g
      → (s.workers t).period ≤ first + margin
      → suc (s.workers t).period ≤ rank (s.workers u).period g
      → (s.workers t).period - margin
        < closed (s.workers u).period (phase_of c (end c first w status) (s.workers u).local g)
  due s t u searching h v l e low k = omega (arith, k)
  due s t u (taking i m) h v l e low k = omega (arith, k)
  due s t u checking h v l e low k = omega (arith, k)
  due s t u told h v l e low k = omega (arith, k)
  due s t u reported h v l e low k = omega (arith, k)
  due s t u stopped h v l e low k = elim (at_stage c first w status s u stopped v l e) [
    | inl at_end ↦ omega (arith, at_end)
    | inr found ↦
        let (_, after) =
          h.later_answers (s.workers u).period u status l found.0 (v.quiet u l) found.1 in
        ground (arith, after)
  ]

  take-Step :
      (s : State L) (t i : ℕ) (m : Imports)
      → Expected c first w status
      → Inv c first w status s
      → t < num_threads
      → (s.workers t).stage ≡ taking i m
      → ((u : ℕ)
          → u < num_threads
          → rank (s.workers t).period (s.workers t).stage
            ≤ rank (s.workers u).period (s.workers u).stage)
      → (s' : State L) × Step c s s'
  take-Step s t i m h v l e least_rank = elim (Bool-cases (ltb (s.workers t).period margin)) [
    | inl early ↦ (_, move t i l e (inr (ground arith)))
    | inr in_time ↦ elim (Bool-cases (ltb i num_threads)) [
      | inl more ↦
          let low = at_stage c first w status s t (taking i m) v l e in
          let mine : rank (s.workers t).period (s.workers t).stage ≡ suc (s.workers t).period =
            ap (rank (s.workers t).period) e in
          let (q, q', m', at, run) =
            import_due (to_end c first w status) _ t i m v.valid l
              (ap (phase_of c (end c first w status) (s.workers t).local) e) (ground arith)
              (λ u a.
                due s t u (s.workers u).stage h v a refl low.0
                  (omega (arith, mine, least_rank u a))) in
          (
            _,
            take t i l e (ground arith) (ground arith)
                (get_at s.sharer.pcqm ((t + i) % num_threads) q at) run,
          )
      | inr done ↦ (_, move t i l e (inl (ground arith)))
    ]
  ]

  -- A thread that was told to stop can report, with the answer that it still came to if there is one.
  told-Step :
      (s : State L) (t : ℕ) (a : Option SatResult)
      → Expected c first w status
      → Inv c first w status s
      → t < num_threads
      → (s.workers t).stage ≡ told
      → late_answer (s.workers t).local ≡ a
      → (s' : State L) × Step c s s'
  told-Step s t (some x) h v l e late =
      (_, answer_late t l e late (answer_late-report c first w status s t x h v l e late))
  told-Step s t none h v l e late =
      let at_end : (s.workers t).period ≡ end c first w status =
        at_stage c first w status s t told v l e in
      (
        _,
        give_up t l e (
            i_finished-Settled first w margin status s.sharer (s.workers t).period t h.known
              (end-Settled c first w status s t h v l at_end)),
      )

  some-Step :
      (s : State L) (t : ℕ) (g : Stage)
      → Expected c first w status
      → Inv c first w status s
      → t < num_threads
      → (s.workers t).stage ≡ g
      → ((u : ℕ)
          → u < num_threads
          → rank (s.workers t).period (s.workers t).stage
            ≤ rank (s.workers u).period (s.workers u).stage)
      → (g ≡ stopped) ⊎ ((s' : State L) × Step c s s')
  some-Step s t searching h v l e low =
      inr (search-Step s t (answer (s.workers t).local) h v l e refl)
  some-Step s t (taking i m) h v l e low = inr (take-Step s t i m h v l e low)
  some-Step s t checking h v l e low = inr (_, check t l e)
  some-Step s t told h v l e low =
      inr (told-Step s t (late_answer (s.workers t).local) h v l e refl)
  some-Step s t reported h v l e low =
      let (_, _, _, _, run) = close_runs c first w status s t h v l e in inr (_, close t l e run)
  some-Step s t stopped h v l e low = inl refl

  -- Only a thread that has stopped has the rank of one.
  rank-stopped :
      (t p : ℕ) (g : Stage)
      → OnStage c first w status t p g
      → first + margin + 5 ≤ rank p g
      → g ≡ stopped
  rank-stopped t p searching h k = absurd (omega (arith, h))
  rank-stopped t p (taking i m) h k = absurd (omega (arith, h.0))
  rank-stopped t p checking h k = absurd (omega (arith, h))
  rank-stopped t p told h k = absurd (omega (arith, h))
  rank-stopped t p reported h k = absurd (ground (arith, h))
  rank-stopped t p stopped h k = refl

  -- In every state that a launch can reach, all threads have stopped or some thread has a step: no
  -- thread is stuck, neither in an import nor in its report.
  pub Reach-Step :
      (lim k : ℕ) (s : State L)
      → FirstAnswer c first w status
      → Reach c lim k s
      → ((t : ℕ) → t < num_threads → (s.workers t).stage ≡ stopped) ⊎ ((s' : State L) × Step c s s')
  Reach-Step lim k s f r =
      let h = FirstAnswer-Expected c first w status f in
      let v = Reach-Inv c first w status lim k s f r in
      let (t, l, low) =
        least (λ u. rank (s.workers u).period (s.workers u).stage) (num_threads - 1) in
      let lt : t < num_threads = omega (arith, l, h.is_thread) in
      elim (some-Step s t (s.workers t).stage h v lt refl (λ u a. low u (omega arith))) [
        | inl e ↦ inl (λ u a.
            let mine : rank (s.workers t).period (s.workers t).stage ≡ first + margin + 5 =
              ap (rank (s.workers t).period) e in
            rank-stopped u (s.workers u).period (s.workers u).stage (v.on_stage u a)
              (omega (arith, mine, low u (omega arith))))
        | inr step ↦ inr step
      ]
