-- ===== src/System/Launch/Outcome.antt =====
-- How a launch ends, whatever the order of the steps.
use dps_pos.Base.{ℕ, ◌+◌, ◌<◌, ◌≤◌, ◌≡◌, refl, subst, arith, inl}
use dps_pos.Base.Int.{pos}
use dps_pos.Parallel.Sharer.{SatResult}
use dps_pos.Parallel.Sharer
use dps_pos.System.{System}
use dps_pos.System
use dps_pos.System.Invariant.{Valid}
use dps_pos.System.Determinism.{init-Valid}
use dps_pos.System.Launch.{
  Program, Stage, searching, taking, checking, told, reported, stopped, State, launch, Step, finish,
  take, move, check, restart, solve, give_up, answer_late, close, Reach, start, later,
}
use dps_pos.System.Launch.Answer.{Settled}
use dps_pos.System.Launch.Invariant.{end, to_end, Expected, OnStage, SettledBy, Inv}
use dps_pos.System.Launch.Steps.{finish-Inv, take-Inv, move-Inv, check-Inv, restart-early}
use dps_pos.System.Launch.Reports.{solve-Inv}
use dps_pos.System.Launch.Late.{give_up-Inv, answer_late-Inv}
use dps_pos.System.Launch.LastPeriod.{close-Inv}
use dps_pos.System.Launch.Plain.{FirstAnswer, FirstAnswer-Expected}
use dps_pos.System.Launch.Shadow.{system_of}

module _ {L : Type 0} (c : Program L) (first w : ℕ) (status : SatResult) where
  open c use {setup, answer, last_len}
  open setup use {num_threads, margin}

  launch-Valid :
      (lim : ℕ)
      → Valid (to_end c first w status) (system_of c (end c first w status) (launch c lim))
  unfolding launch Sharer.init System.init
  launch-Valid lim = init-Valid (to_end c first w status)

  launch-Inv : (lim : ℕ) → Inv c first w status (launch c lim)
  unfolding launch Sharer.init
  launch-Inv lim = record {
    valid = launch-Valid lim;
    same_margin = refl;
    same_mode = refl;
    verdict = inl (refl, refl);
    on_stage = λ t l. omega arith;
    quiet = λ t l r h. absurd (omega arith);
    settled = tt;
  }

  Step-Inv :
      (s s' : State L)
      → Expected c first w status
      → Inv c first w status s
      → Step c s s'
      → Inv c first w status s'
  Step-Inv s _ h v (finish t l e a at run) = finish-Inv c first w status s t _ _ h v l e a at run
  Step-Inv s _ h v (take t i l e li lm at run) =
      take-Inv c first w status s t i _ _ _ _ v l e li lm at run
  Step-Inv s _ h v (move t i l e d) = move-Inv c first w status s t i _ v l e d
  Step-Inv s _ h v (check t l e) = check-Inv c first w status s t h v l e
  Step-Inv s _ h v (restart t l e stop) = absurd (restart-early c first w status s t h v l e stop)
  Step-Inv s _ h v (solve t l e a run) = solve-Inv c first w status s t _ _ h v l e a run
  Step-Inv s _ h v (give_up t l e run) = give_up-Inv c first w status s t _ h v l e run
  Step-Inv s _ h v (answer_late t l e a run) =
      answer_late-Inv c first w status s t _ _ h v l e a run
  Step-Inv s _ h v (close t l e run) = close-Inv c first w status s t _ h v l e run

  pub Reach-Inv :
      (lim k : ℕ) (s : State L)
      → FirstAnswer c first w status
      → Reach c lim k s
      → Inv c first w status s
  Reach-Inv lim _ _ f start = launch-Inv lim
  Reach-Inv lim _ _ f (later h st) =
      Step-Inv _ _ (FirstAnswer-Expected c first w status f) (Reach-Inv lim _ _ f h) st

  -- Let thread `w` have the first answer of the plain rounds, in period `first`: a known one that no
  -- thread contradicts up to the margin, nor with an answer that it still comes to after it was told
  -- to stop, with period numbers that fit their word. However the threads of a launch were
  -- interleaved, once thread `w` has stopped the sharer has its answer, its period and its number,
  -- so these are the answer and the winner of the launch.
  pub Reach-winner :
      (lim k : ℕ) (s : State L)
      → FirstAnswer c first w status
      → Reach c lim k s
      → (s.workers w).stage ≡ stopped
      → (s.sharer.final_result ≡ status)
        × (s.sharer.winner_period ≡ first)
        × (s.sharer.winner_id ≡ pos w)
  Reach-winner lim k s f h e =
      let won : Settled first w margin status s.sharer =
        subst (λ g. SettledBy c first w status g s.sharer) e (Reach-Inv lim k s f h).settled in
      (won.final_result, won.winner_period, won.winner_id)

  OnStage-le-end : (t p : ℕ) (g : Stage) → OnStage c first w status t p g → p ≤ end c first w status
  OnStage-le-end t p searching h = omega arith
  OnStage-le-end t p (taking i m) h = omega (arith, h.0)
  OnStage-le-end t p checking h = h
  OnStage-le-end t p told h = omega arith
  OnStage-le-end t p reported h = ground (arith, h)
  OnStage-le-end t p stopped h = ground (arith, h)

  -- Let thread `w` have the first answer of the plain rounds, in period `first`: a known one that no
  -- thread contradicts up to the margin, nor with an answer that it still comes to after it was told
  -- to stop, with period numbers that fit their word. Then no thread of a launch ever goes further
  -- than to the period `first + margin + 1`, in any order of the steps.
  pub Reach-period :
      (lim k : ℕ) (s : State L) (t : ℕ)
      → FirstAnswer c first w status
      → Reach c lim k s
      → t < num_threads
      → (s.workers t).period ≤ first + margin + 1
  Reach-period lim k s t f h l =
      OnStage-le-end t (s.workers t).period (s.workers t).stage
        ((Reach-Inv lim k s f h).on_stage t l)
