-- ===== src/System/Launch/Late.antt =====
-- A thread that was told to stop keeps the invariant with its report: that it has no result, or the
-- answer that it still came to.
use dps_pos.Base.{ℕ, ◌<◌, ◌≡◌, refl, sym, ap, subst, ◌∙◌, some, false, Bool, arith, inl}
use dps_pos.Base.Int.{pos}
use dps_pos.Base.Result.{ok}
use dps_pos.Parallel.Sharer.{Sharer, SatResult, unknown, i_finished}
use dps_pos.System.Launch.Steps.{at_stage}
use dps_pos.System.{update}
use dps_pos.System.Rounds.{state_at}
use dps_pos.System.Launch.{Program, told, reported, State}
use dps_pos.System.Launch.Shadow.{phase_of}
use dps_pos.System.Launch.Answer.{Settled, i_finished-Settled, i_finished-late}
use dps_pos.System.Launch.Invariant.{end, to_end, Quiet, Expected, Inv, end-Settled}
use dps_pos.System.Launch.Update.{FollowsOn-same, local_at}
use dps_pos.System.Launch.Reports.{same_ok, reported-Inv}

module _ {L : Type 0} (c : Program L) (first w : ℕ) (status : SatResult) where
  open c use {setup, answer, late_answer, last_len}
  open setup use {num_threads, margin, held}

  -- A report, in the last period, that leaves the sharer as it is.
  ignored-Inv :
      (s : State L) (t : ℕ) (r : Sharer × Bool)
      → Inv c first w status s
      → t < num_threads
      → (s.workers t).stage ≡ told
      → (s.workers t).period ≡ end c first w status
      → Settled first w margin status s.sharer
      → ok (s.sharer, false) ≡ ok r
      → Inv c first w status (record {
        sharer = r.0;
        workers = update s.workers t (record {
          local = (s.workers t).local;
          period = (s.workers t).period;
          stage = reported;
        });
      })
  ignored-Inv s t r v l e at_end won run =
      let same_sharer : s.sharer ≡ r.0 = ap (λ z. z.0) (same_ok (s.sharer, false) r run) in
      subst
        (λ y. Inv c first w status (record {
          sharer = y;
          workers = update s.workers t (record {
            local = (s.workers t).local;
            period = (s.workers t).period;
            stage = reported;
          });
        }))
        same_sharer
        (reported-Inv c first w status s t s.sharer told v l e refl refl
          (FollowsOn-same c first w status s v) (inl at_end) (λ k. won))

  pub give_up-Inv :
      (s : State L) (t : ℕ) (r : Sharer × Bool)
      → Expected c first w status
      → Inv c first w status s
      → t < num_threads
      → (s.workers t).stage ≡ told
      → i_finished s.sharer unknown (s.workers t).period (pos t) ≡ ok r
      → Inv c first w status (record {
        sharer = r.0;
        workers = update s.workers t (record {
          local = (s.workers t).local;
          period = (s.workers t).period;
          stage = reported;
        });
      })
  give_up-Inv s t r h v l e run =
      let at_end = at_stage c first w status s t told v l e in
      let won = end-Settled c first w status s t h v l at_end in
      ignored-Inv s t r v l e at_end won (
        sym (i_finished-Settled first w margin status s.sharer (s.workers t).period t h.known won)
        ∙ run)

  -- The answer that a thread still comes to after it was told to stop.
  late_status :
      (s : State L) (t : ℕ) (x : SatResult)
      → Expected c first w status
      → Inv c first w status s
      → t < num_threads
      → (s.workers t).stage ≡ told
      → late_answer (s.workers t).local ≡ some x
      → x ≡ status
  late_status s t x h v l e late =
      let at_end : (s.workers t).period ≡ end c first w status =
        at_stage c first w status s t told v l e in
      let here =
        local_at c first w status s t v
          (ap (phase_of c (end c first w status) (s.workers t).local) e) in
      let there : late_answer (state_at (to_end c first w status) (s.workers t).period t).1
          ≡ some x =
        sym (ap (λ y. late_answer y.1) here) ∙ late in
      h.late_agree t x l (subst (λ p. Quiet c first w status p t) at_end (v.quiet t l))
        (subst (λ p. late_answer (state_at (to_end c first w status) p t).1 ≡ some x) at_end there)

  -- The sharer takes that answer, and stays as it is.
  pub answer_late-report :
      (s : State L) (t : ℕ) (x : SatResult)
      → Expected c first w status
      → Inv c first w status s
      → t < num_threads
      → (s.workers t).stage ≡ told
      → late_answer (s.workers t).local ≡ some x
      → i_finished s.sharer x (s.workers t).period (pos t) ≡ ok (s.sharer, false)
  answer_late-report s t x h v l e late =
      let at_end : (s.workers t).period ≡ end c first w status =
        at_stage c first w status s t told v l e in
      ap (λ y. i_finished s.sharer y (s.workers t).period (pos t)) (late_status s t x h v l e late)
      ∙ i_finished-late first w margin status s.sharer (s.workers t).period t h.known
          (end-Settled c first w status s t h v l at_end) (omega (arith, at_end))

  pub answer_late-Inv :
      (s : State L) (t : ℕ) (x : SatResult) (r : Sharer × Bool)
      → Expected c first w status
      → Inv c first w status s
      → t < num_threads
      → (s.workers t).stage ≡ told
      → late_answer (s.workers t).local ≡ some x
      → i_finished s.sharer x (s.workers t).period (pos t) ≡ ok r
      → Inv c first w status (record {
        sharer = r.0;
        workers = update s.workers t (record {
          local = (s.workers t).local;
          period = (s.workers t).period;
          stage = reported;
        });
      })
  answer_late-Inv s t x r h v l e late run =
      let at_end = at_stage c first w status s t told v l e in
      ignored-Inv s t r v l e at_end (end-Settled c first w status s t h v l at_end)
        (sym (answer_late-report s t x h v l e late) ∙ run)
