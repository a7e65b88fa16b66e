-- ===== src/System/Launch/LastPeriod.antt =====
-- The end of the last period of a thread keeps the invariant.
use dps_pos.Base.{ℕ, ◌<◌, ◌≡◌, sym, [], ap, subst, ◌∙◌, set, arith, inl, inr}
use dps_pos.Base.Result.{ok}
use dps_pos.Parallel.Sharer.{Sharer, SatResult, unknown, i_finished, should_be_terminated}
use dps_pos.Parallel.Sharer
use dps_pos.Period.Queue.{PrdClausesQueue}
use dps_pos.Period.Manager
use dps_pos.System.Progress.{publish_working}
use dps_pos.Period.Manager.{get_at}
use dps_pos.System.Launch.Close.{complete_curr_period_lem}
use dps_pos.System.Launch.Steps.{at_stage}
use dps_pos.System.{update, importing, publish}
use dps_pos.System.Steps.{finish-Valid}
use dps_pos.System.Launch.{Program, reported, stopped, State}
use dps_pos.System.Launch.Shadow.{shadow_work, phase_of, work-answer, work-end}
use dps_pos.System.Launch.Answer.{Settled}
use dps_pos.System.Launch.Invariant.{end, to_end, Expected, SettledBy, Inv}
use dps_pos.System.Launch.Update.{Valid-update, FollowsOn-queues, Inv-update, found_local}

same_sharer : {A : Type 0} (a b : A) → ok a ≡ ok b → a ≡ b
same_sharer a b e = cc

module _ {L : Type 0} (c : Program L) (first w : ℕ) (status : SatResult) where
  open c use {setup, answer, last_len}
  open setup use {num_threads, margin, held}

  -- A thread that has reported has a state that the shadow does not leave any more.
  shadow_work-reported :
      (s : State L) (t : ℕ)
      → Inv c first w status s
      → t < num_threads
      → (s.workers t).stage ≡ reported
      → shadow_work c (end c first w status) ((s.workers t).period, (s.workers t).local) ≡ (
        ((s.workers t).period, (s.workers t).local),
        record { clauses = []; prd_len = last_len (s.workers t).local },
      )
  shadow_work-reported s t v l e = elim (at_stage c first w status s t reported v l e) [
    | inl at_end ↦ rw at_end (work-end c (end c first w status) (s.workers t).local)
    | inr found ↦
        work-answer c (end c first w status) (s.workers t).period (s.workers t).local status (
          sym (
            found_local c first w status s t v
              (ap (phase_of c (end c first w status) (s.workers t).local) e))
          ∙ found.1)
  ]

  -- The last period of a thread can be completed, and this is a publication in the shadow.
  pub close_runs :
      (s : State L) (t : ℕ)
      → Expected c first w status
      → Inv c first w status s
      → t < num_threads
      → (s.workers t).stage ≡ reported
      → (q : PrdClausesQueue) × (q' : PrdClausesQueue) × (Manager.get s.sharer.pcqm t ≡ ok q)
        × (publish q
              (shadow_work c (end c first w status) ((s.workers t).period, (s.workers t).local)).1
            ≡ ok q')
        × (Sharer.complete_curr_period s.sharer t (last_len (s.workers t).local)
            ≡ ok (record (s.sharer) { pcqm = set s.sharer.pcqm t q' }))
  close_runs s t h v l e =
      let low = at_stage c first w status s t reported v l e in
      let (q, q', at, run) =
        publish_working (to_end c first w status) _ t v.valid l
          (ap (phase_of c (end c first w status) (s.workers t).local) e)
          (ground (arith, low, h.room)) in
      (
        q,
        q',
        get_at s.sharer.pcqm t q at,
        run,
        complete_curr_period_lem s.sharer t (last_len (s.workers t).local) q q' at
            (ap (λ y. publish q y.1) (sym (shadow_work-reported s t v l e)) ∙ run),
      )

  pub close-Inv :
      (s : State L) (t : ℕ) (y : Sharer)
      → Expected c first w status
      → Inv c first w status s
      → t < num_threads
      → (s.workers t).stage ≡ reported
      → Sharer.complete_curr_period s.sharer t (last_len (s.workers t).local) ≡ ok y
      → Inv c first w status (record {
        sharer = y;
        workers = update s.workers t (record {
          local = (s.workers t).local;
          period = (s.workers t).period;
          stage = stopped;
        });
      })
  close-Inv s t y h v l e run =
      let (q, q', at, pub_run, close_run) = close_runs s t h v l e in
      let low = at_stage c first w status s t reported v l e in
      let f = FollowsOn-queues c first w status s (set s.sharer.pcqm t q') v in
      let won : SettledBy c first w status (s.workers t).stage s.sharer
          → Settled first w margin status s.sharer =
        λ d. subst (λ g. SettledBy c first w status g s.sharer) e d in
      subst
        (λ z. Inv c first w status (record {
          sharer = z;
          workers = update s.workers t (record {
            local = (s.workers t).local;
            period = (s.workers t).period;
            stage = stopped;
          });
        }))
        (same_sharer _ y (sym close_run ∙ run))
        (Inv-update c first w status s t _ _ v l
          (Valid-update c first w status s _ t _ _
            (ap
              (λ z. record {
                local = z.0;
                period = (s.workers t).period;
                phase = importing 1 (held z.0.1);
              })
              (shadow_work-reported s t v l e))
            (finish-Valid (to_end c first w status) _ t q q' v.valid l
              (ap (phase_of c (end c first w status) (s.workers t).local) e)
              (ground (arith, low, h.room)) at pub_run))
          f low (v.quiet t l)
          (λ k. f.stays (
            won (
              subst (λ u. SettledBy c first w status (s.workers u).stage s.sharer) (sym k)
                v.settled))))
