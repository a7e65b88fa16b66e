-- ===== src/System/Launch/Steps.antt =====
-- Every step of every thread keeps the invariant.
use dps_pos.Base.{
  ℕ, suc, ◌+◌, ◌-◌, ◌%◌, ◌<◌, ◌≤◌, ◌≡◌, ◌≢◌, ◌⊎◌, refl, sym, ap, subst, ◌∙◌, none, true, false, set,
  length, if◌then◌else◌, ◌==◌, ltb, arith, Bool-cases, inl, inr,
}
use dps_pos.Base.Result.{ok}
use dps_pos.Parallel.Sharer.{SatResult, should_be_terminated}
use dps_pos.Period.Queue.{PrdClausesQueue}
use dps_pos.Period.Manager
use dps_pos.Solver.Import.{Imports, done, import_queue}
use dps_pos.System.{update, working, importing, publish}
use dps_pos.System.Steps.{finish-Valid, take-Valid, move-Valid}
use dps_pos.System.Launch.{Program, Stage, searching, taking, checking, told, State}
use dps_pos.System.Launch.Shadow.{phase_of, work-searching}
use dps_pos.System.Launch.Answer.{should_be_terminated-Settled, should_be_terminated-late}
use dps_pos.System.Launch.Invariant.{end, to_end, found_at, Expected, OnStage, Inv, end-Settled}
use dps_pos.System.Launch.Update.{
  Valid-update, Valid-same, FollowsOn-same, FollowsOn-queues, Inv-update, found_local,
}

module _ {L : Type 0} (c : Program L) (first w : ℕ) (status : SatResult) where
  open c use {setup, answer, last_len}
  open setup use {num_threads, margin, work, held, absorb}

  -- The stage that a thread is at, with what the invariant says of it.
  pub at_stage :
      (s : State L) (t : ℕ) (g : Stage)
      → Inv c first w status s
      → t < num_threads
      → (s.workers t).stage ≡ g
      → OnStage c first w status t (s.workers t).period g
  at_stage s t g v l e = subst (OnStage c first w status t (s.workers t).period) e (v.on_stage t l)

  pub finish-Inv :
      (s : State L) (t : ℕ) (q q' : PrdClausesQueue)
      → Expected c first w status
      → Inv c first w status s
      → t < num_threads
      → (s.workers t).stage ≡ searching
      → answer (s.workers t).local ≡ none
      → Manager.get s.sharer.pcqm t ≡ ok q
      → publish q (work (s.workers t).local).1 ≡ ok q'
      → Inv c first w status (record {
        sharer = record (s.sharer) { pcqm = set s.sharer.pcqm t q' };
        workers = update s.workers t (record {
          local = (work (s.workers t).local).0;
          period = (s.workers t).period;
          stage = taking 1 (held (work (s.workers t).local).0);
        });
      })
  finish-Inv s t q q' x v l e a at run =
      let low : (s.workers t).period ≤ first + margin = at_stage s t searching v l e in
      let as_working : phase_of c (end c first w status) (s.workers t).local (s.workers t).stage
          ≡ working =
        ap (phase_of c (end c first w status) (s.workers t).local) e in
      let same_work =
        work-searching c (end c first w status) (s.workers t).period (s.workers t).local a
          (omega (arith, low)) in
      let room = x.room in
      Inv-update c first w status s t _ _ v l
        (Valid-update c first w status s _ t _ _
          (ap
            (λ y. record {
              local = y.0;
              period = (s.workers t).period;
              phase = importing 1 (held y.0.1);
            })
            same_work)
          (finish-Valid (to_end c first w status) _ t q q' v.valid l as_working
            (omega (arith, low, room)) at (ap (λ y. publish q y.1) same_work ∙ run)))
        (FollowsOn-queues c first w status s _ v)
        (low, found_local c first w status s t v as_working ∙ a) (v.quiet t l) (λ k. tt)

  pub take-Inv :
      (s : State L) (t i : ℕ) (m m' : Imports) (q q' : PrdClausesQueue)
      → Inv c first w status s
      → t < num_threads
      → (s.workers t).stage ≡ taking i m
      → i < num_threads
      → margin ≤ (s.workers t).period
      → Manager.get s.sharer.pcqm ((t + i) % num_threads) ≡ ok q
      → import_queue (suc (length q.queue)) false t ((s.workers t).period - margin) q m
        ≡ done (q', m')
      → Inv c first w status (record {
        sharer = record (s.sharer) { pcqm = set s.sharer.pcqm ((t + i) % num_threads) q' };
        workers = update s.workers t (record {
          local = (s.workers t).local;
          period = (s.workers t).period;
          stage = taking (suc i) m';
        });
      })
  take-Inv s t i m m' q q' v l e li lm at run =
      Inv-update c first w status s t _ _ v l
        (Valid-update c first w status s _ t _ _ refl (
          take-Valid (to_end c first w status) _ t i m m' q q' v.valid l
            (ap (phase_of c (end c first w status) (s.workers t).local) e) li lm at run))
        (FollowsOn-queues c first w status s _ v) (at_stage s t (taking i m) v l e) (v.quiet t l)
        (λ k. tt)

  pub move-Inv :
      (s : State L) (t i : ℕ) (m : Imports)
      → Inv c first w status s
      → t < num_threads
      → (s.workers t).stage ≡ taking i m
      → (num_threads ≤ i) ⊎ ((s.workers t).period < margin)
      → Inv c first w status (record {
        sharer = s.sharer;
        workers = update s.workers t (record {
          local = absorb (s.workers t).local m;
          period = (s.workers t).period + 1;
          stage = checking;
        });
      })
  move-Inv s t i m v l e d =
      let (low, none_here) = at_stage s t (taking i m) v l e in
      Inv-update c first w status s t _ _ v l
        (Valid-update c first w status s _ t _ _ refl (
          move-Valid (to_end c first w status) _ t i m v.valid l
            (ap (phase_of c (end c first w status) (s.workers t).local) e) d))
        (FollowsOn-same c first w status s v) (omega (arith, low))
        (λ r h. elim (Bool-cases (r == (s.workers t).period)) [
          | inl now ↦
              let k : (s.workers t).period ≡ r = ground arith in
              subst (λ p. found_at c first w status p t ≡ none) k none_here
          | inr before ↦ v.quiet t l r (ground arith)
        ])
        (λ k. tt)

  check_stage :
      (s : State L) (t : ℕ)
      → Expected c first w status
      → Inv c first w status s
      → t < num_threads
      → (s.workers t).period ≤ end c first w status
      → OnStage c first w status t
          (s.workers t).period
          (if should_be_terminated s.sharer (s.workers t).period then told else searching)
  check_stage s t x v l low =
      elim (Bool-cases (should_be_terminated s.sharer (s.workers t).period)) [
        | inl stop ↦
            let late =
              should_be_terminated-late first w margin status s.sharer (s.workers t).period
                v.same_margin v.same_mode (omega (arith, x.room)) x.known v.verdict stop in
            rw stop (omega (arith, late))
        | inr go ↦ rw go (elim (Bool-cases (ltb (first + margin) (s.workers t).period)) [
          | inl last ↦
              let at_end : (s.workers t).period ≡ end c first w status = ground arith in
              let stop : should_be_terminated s.sharer (s.workers t).period ≡ true =
                should_be_terminated-Settled first w margin status s.sharer (s.workers t).period
                  v.same_margin (omega (arith, x.room))
                  (end-Settled c first w status s t x v l at_end) (ground arith) in
              absurd (cc)
          | inr early ↦ ground arith
        ])
      ]

  pub check-Inv :
      (s : State L) (t : ℕ)
      → Expected c first w status
      → Inv c first w status s
      → t < num_threads
      → (s.workers t).stage ≡ checking
      → Inv c first w status (record {
        sharer = s.sharer;
        workers = update s.workers t (record {
          local = (s.workers t).local;
          period = (s.workers t).period;
          stage = if should_be_terminated s.sharer (s.workers t).period then told else searching;
        });
      })
  check-Inv s t x v l e =
      let b = should_be_terminated s.sharer (s.workers t).period in
      let hidden : phase_of c (end c first w status) (s.workers t).local
            (if b then told else searching)
          ≡ working =
        elim (Bool-cases b) [ inl stop ↦ rw stop refl | inr go ↦ rw go refl ] in
      Inv-update c first w status s t _ _ v l
        (Valid-same c first w status s t _ s.sharer v.valid
          (ap
            (λ p. record {
              local = ((s.workers t).period, (s.workers t).local);
              period = (s.workers t).period;
              phase = p;
            })
            (ap (phase_of c (end c first w status) (s.workers t).local) e ∙ sym hidden))
          refl)
        (FollowsOn-same c first w status s v) (check_stage s t x v l (at_stage s t checking v l e))
        (v.quiet t l) (λ k. elim (Bool-cases b) [ inl stop ↦ rw stop tt | inr go ↦ rw go tt ])

  -- Before the last period no read of the request finds that the thread has to stop.
  pub restart-early :
      (s : State L) (t : ℕ)
      → Expected c first w status
      → Inv c first w status s
      → t < num_threads
      → (s.workers t).stage ≡ searching
      → should_be_terminated s.sharer (s.workers t).period ≢ true
  restart-early s t h v l e stop =
      let low : (s.workers t).period ≤ first + margin = at_stage s t searching v l e in
      let room = h.room in
      let late =
        should_be_terminated-late first w margin status s.sharer (s.workers t).period v.same_margin
          v.same_mode (omega (arith, room)) h.known v.verdict stop in
      omega (arith, low, late)
