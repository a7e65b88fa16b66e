-- ===== src/System/Launch/Reports.antt =====
-- A thread that stops keeps the invariant: its report, and the end of its last period.
use dps_pos.Base.{ℕ, ◌+◌, ◌<◌, ◌≤◌, ◌≡◌, refl, sym, ap, subst, ◌∙◌, some, Bool, arith, inr}
use dps_pos.Base.Int.{pos}
use dps_pos.Base.Result.{ok}
use dps_pos.Parallel.Sharer.{Sharer, SatResult, i_finished}
use dps_pos.System.Launch.Steps.{at_stage}
use dps_pos.System.{update, working}
use dps_pos.System.Launch.{Program, Stage, searching, reported, State}
use dps_pos.System.Launch.Shadow.{phase_of}
use dps_pos.System.Launch.Answer.{Settled, i_finished-Accepted, Accepted}
use dps_pos.System.Launch.Invariant.{end, found_at, Quiet, Expected, OnStage, Inv, not_over}
use dps_pos.System.Launch.Update.{Valid-same, FollowsOn, Inv-update, found_local}

pub same_ok : {A : Type 0} (a b : A) → ok a ≡ ok b → a ≡ b
same_ok a b e = cc

module _ {L : Type 0} (c : Program L) (first w : ℕ) (status : SatResult) where
  open c use {setup, answer, late_answer, last_len}
  open setup use {num_threads, margin, held}

  -- The sharer accepts the answer of a search.
  pub solve-Accepted :
      (s : State L) (t : ℕ) (x : SatResult)
      → Expected c first w status
      → Inv c first w status s
      → t < num_threads
      → (s.workers t).stage ≡ searching
      → answer (s.workers t).local ≡ some x
      → (r : Sharer × Bool) × (x ≡ status)
        × (i_finished s.sharer x (s.workers t).period (pos t) ≡ ok r)
        × Accepted first w margin status s.sharer (s.workers t).period t r.0
  solve-Accepted s t x h v l e a =
      let low : (s.workers t).period ≤ first + margin =
        at_stage c first w status s t searching v l e in
      let found : found_at c first w status (s.workers t).period t ≡ some x =
        found_local c first w status s t v
          (ap (phase_of c (end c first w status) (s.workers t).local) e)
        ∙ a in
      let (same_status, after) =
        h.later_answers (s.workers t).period t x l low (v.quiet t l) found in
      let (r, run, acc) =
        i_finished-Accepted first w margin status s.sharer (s.workers t).period t h.known v.verdict
          after low in
      (
        r,
        same_status,
        subst (λ y. i_finished s.sharer y (s.workers t).period (pos t) ≡ ok r) (sym same_status)
            run,
        acc,
      )

  pub reported-Inv :
      (s : State L) (t : ℕ) (y : Sharer) (g : Stage)
      → Inv c first w status s
      → t < num_threads
      → (s.workers t).stage ≡ g
      → phase_of c (end c first w status) (s.workers t).local g ≡ working
      → y.pcqm ≡ s.sharer.pcqm
      → FollowsOn c first w status s.sharer y
      → OnStage c first w status t (s.workers t).period reported
      → (t ≡ w → Settled first w margin status y)
      → Inv c first w status (record {
        sharer = y;
        workers = update s.workers t (record {
          local = (s.workers t).local;
          period = (s.workers t).period;
          stage = reported;
        });
      })
  reported-Inv s t y g v l e hidden same_queues f on wins =
      Inv-update c first w status s t _ y v l
        (Valid-same c first w status s t _ y v.valid
          (ap
            (λ p. record {
              local = ((s.workers t).period, (s.workers t).local);
              period = (s.workers t).period;
              phase = p;
            })
            (ap (phase_of c (end c first w status) (s.workers t).local) e ∙ hidden))
          same_queues)
        f on (v.quiet t l) wins

  -- Thread `w` reports for period `first`.
  on_time :
      (s : State L) (t : ℕ)
      → Expected c first w status
      → Inv c first w status s
      → t < num_threads
      → t ≡ w
      → found_at c first w status (s.workers t).period t ≡ some status
      → (s.workers t).period ≤ first + margin
      → first ≡ (s.workers t).period
  on_time s t h v l k found low =
      let (_, after) = h.later_answers (s.workers t).period t status l low (v.quiet t l) found in
      let early : (s.workers t).period ≤ first =
        not_over c first w status h (s.workers t).period
          (subst (Quiet c first w status (s.workers t).period) k (v.quiet t l)) in
      omega (arith, after)

  pub solve-Inv :
      (s : State L) (t : ℕ) (x : SatResult) (r : Sharer × Bool)
      → Expected c first w status
      → Inv c first w status s
      → t < num_threads
      → (s.workers t).stage ≡ searching
      → answer (s.workers t).local ≡ some x
      → i_finished s.sharer x (s.workers t).period (pos t) ≡ ok r
      → Inv c first w status (record {
        sharer = r.0;
        workers = update s.workers t (record {
          local = (s.workers t).local;
          period = (s.workers t).period;
          stage = reported;
        });
      })
  solve-Inv s t x r h v l e a run =
      let (r2, same_status, run2, acc2) = solve-Accepted s t x h v l e a in
      let acc : Accepted first w margin status s.sharer (s.workers t).period t r.0 =
        subst (λ z. Accepted first w margin status s.sharer (s.workers t).period t z.0)
          (same_ok r2 r (sym run2 ∙ run)) acc2 in
      let found : found_at c first w status (s.workers t).period t ≡ some status =
        found_local c first w status s t v
          (ap (phase_of c (end c first w status) (s.workers t).local) e)
        ∙ a
        ∙ ap some same_status in
      reported-Inv s t r.0 searching v l e refl acc.same_queues
        (record {
          same_margin = acc.same_margin ∙ v.same_margin;
          same_mode = acc.same_mode ∙ v.same_mode;
          verdict = acc.verdict;
          stays = acc.stays;
        })
        (inr (at_stage c first w status s t searching v l e, found))
        (λ k.
          acc.wins (on_time s t h v l k found (at_stage c first w status s t searching v l e))
            (sym k))
