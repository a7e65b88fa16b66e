-- ===== src/System/Launch/Update.antt =====
-- One thread of a launch changes.
use dps_pos.Base.{ℕ, ◌<◌, ◌≡◌, sym, ap, subst, ◌∙◌, List, false, ◌==◌, arith, Bool-cases, inl, inr}
use dps_pos.Parallel.Sharer.{Sharer, SatResult}
use dps_pos.Period.Queue.{PrdClausesQueue}
use dps_pos.System.{Thread, update, working}
use dps_pos.System.Rounds.{state_at}
use dps_pos.System.Invariant.{OnCourse, Valid}
use dps_pos.System.Launch.{
  Program, Stage, searching, taking, checking, told, reported, stopped, Worker, State,
}
use dps_pos.System.Launch.Shadow.{
  system_of, threads_of, thread_of, phase_of, threads_of-update, threads_of_same,
}
use dps_pos.System.Launch.Answer.{Verdict, Settled}
use dps_pos.System.Launch.Invariant.{end, to_end, found_at, Quiet, OnStage, SettledBy, Inv}

module _ {L : Type 0} (c : Program L) (first w : ℕ) (status : SatResult) where
  open c use {setup, answer, last_len}
  open setup use {num_threads, margin}

  -- The shadow's step, as a change of one worker.
  pub Valid-update :
      (s : State L) (qs : List PrdClausesQueue) (t : ℕ) (x : Worker L) (th : Thread (ℕ × L))
      → th ≡ thread_of c (end c first w status) x
      → Valid (to_end c first w status) (record {
        queues = qs;
        threads = update (threads_of c (end c first w status) s.workers) t th;
      })
      → Valid (to_end c first w status) (record {
        queues = qs;
        threads = threads_of c (end c first w status) (update s.workers t x);
      })
  Valid-update s qs t x th e v =
      subst (λ f. Valid (to_end c first w status) (record { queues = qs; threads = f }))
        (ap (update (threads_of c (end c first w status) s.workers) t) e
          ∙ threads_of-update c (end c first w status) s.workers t x)
        v

  pub Valid-same :
      (s : State L) (t : ℕ) (x : Worker L) (y : Sharer)
      → Valid (to_end c first w status) (system_of c (end c first w status) s)
      → thread_of c (end c first w status) (s.workers t) ≡ thread_of c (end c first w status) x
      → y.pcqm ≡ s.sharer.pcqm
      → Valid (to_end c first w status) (record {
        queues = y.pcqm;
        threads = threads_of c (end c first w status) (update s.workers t x);
      })
  Valid-same s t x y v e q = rw q (
      subst (λ f. Valid (to_end c first w status) (record { queues = s.sharer.pcqm; threads = f }))
        (threads_of_same c (end c first w status) s.workers t x e) v)

  SettledBy-later :
      (g : Stage) (x y : Sharer)
      → (Settled first w margin status x → Settled first w margin status y)
      → SettledBy c first w status g x
      → SettledBy c first w status g y
  SettledBy-later searching x y h d = tt
  SettledBy-later (taking i m) x y h d = tt
  SettledBy-later checking x y h d = tt
  SettledBy-later told x y h d = tt
  SettledBy-later reported x y h d = h d
  SettledBy-later stopped x y h d = h d

  -- What the sharer `y` has to be for the invariant to go on.
  pub record FollowsOn (x y : Sharer) : Type 0 where
    pub same_margin : y.margin ≡ margin
    pub same_mode : y.non_det ≡ false
    pub verdict : Verdict first w margin status y
    pub stays : Settled first w margin status x → Settled first w margin status y

  pub FollowsOn-same : (s : State L) → Inv c first w status s → FollowsOn s.sharer s.sharer
  FollowsOn-same s v = record {
    same_margin = v.same_margin;
    same_mode = v.same_mode;
    verdict = v.verdict;
    stays = λ h. h;
  }

  pub FollowsOn-queues :
      (s : State L) (qs : List PrdClausesQueue)
      → Inv c first w status s
      → FollowsOn s.sharer (record (s.sharer) { pcqm = qs })
  FollowsOn-queues s qs v = record {
    same_margin = v.same_margin;
    same_mode = v.same_mode;
    verdict = v.verdict;
    stays = λ h. record {
      sol_found = h.sol_found;
      final_result = h.final_result;
      winner_period = h.winner_period;
      winner_id = h.winner_id;
    };
  }

  pub Inv-update :
      (s : State L) (t : ℕ) (x : Worker L) (y : Sharer)
      → Inv c first w status s
      → t < num_threads
      → Valid (to_end c first w status) (record {
        queues = y.pcqm;
        threads = threads_of c (end c first w status) (update s.workers t x);
      })
      → FollowsOn s.sharer y
      → OnStage c first w status t x.period x.stage
      → Quiet c first w status x.period t
      → (t ≡ w → SettledBy c first w status x.stage y)
      → Inv c first w status (record { sharer = y; workers = update s.workers t x })
  Inv-update s t x y v l valid f on quiet settled = record {
    valid = valid;
    same_margin = f.same_margin;
    same_mode = f.same_mode;
    verdict = f.verdict;
    on_stage = λ u a. elim (Bool-cases (t == u)) [
      | inl same ↦
          let k : t ≡ u = ground arith in
          rw same (subst (λ i. OnStage c first w status i x.period x.stage) k on)
      | inr other ↦ rw other (v.on_stage u a)
    ];
    quiet = λ u a. elim (Bool-cases (t == u)) [
      | inl same ↦
          let k : t ≡ u = ground arith in rw same (subst (Quiet c first w status x.period) k quiet)
      | inr other ↦ rw other (v.quiet u a)
    ];
    settled = elim (Bool-cases (t == w)) [
      | inl same ↦ rw same (settled (ground arith))
      | inr other ↦ rw other (SettledBy-later (s.workers w).stage s.sharer y f.stays v.settled)
    ];
  }

  -- A thread that is in its period is in the state of the shadow's round.
  pub local_at :
      (s : State L) (t : ℕ)
      → Inv c first w status s
      → phase_of c (end c first w status) (s.workers t).local (s.workers t).stage ≡ working
      → ((s.workers t).period, (s.workers t).local)
        ≡ state_at (to_end c first w status) (s.workers t).period t
  local_at s t v e =
      subst
        (OnCourse (to_end c first w status) t (s.workers t).period
          ((s.workers t).period, (s.workers t).local))
        e (v.valid.on_course t)

  pub found_local :
      (s : State L) (t : ℕ)
      → Inv c first w status s
      → phase_of c (end c first w status) (s.workers t).local (s.workers t).stage ≡ working
      → found_at c first w status (s.workers t).period t ≡ answer (s.workers t).local
  unfolding found_at
  found_local s t v e = sym (ap (λ y. answer y.1) (local_at s t v e))
