-- ===== src/System/Launch/Ending.antt =====
-- A launch can be led to its end from every state that it reaches.
use dps_pos.Base.{ℕ, zero, suc, ◌+◌, ◌*◌, ◌<◌, ◌≡◌, arith, inl, inr}
use dps_pos.Base.Int.{pos}
use dps_pos.Parallel.Sharer.{SatResult}
use dps_pos.System.Launch.{Program, stopped, State, Step, Reach, later}
use dps_pos.System.Launch.Plain.{FirstAnswer}
use dps_pos.System.Launch.Outcome.{Reach-winner}
use dps_pos.System.Launch.Progress.{Reach-Step}
use dps_pos.System.Launch.Measure.{Reach_bounded}

module _ {L : Type 0} (c : Program L) where
  open c use {setup}
  open setup use {num_threads, margin}

  -- Any number of steps.
  pub data Steps : State L → State L → Type 0 where
    none_left : {s : State L} → Steps s s
    step : {s s' s'' : State L} → Step c s s' → Steps s' s'' → Steps s s''

  abbrev pub AllStopped : State L → Type 0
  AllStopped s = (t : ℕ) → t < num_threads → (s.workers t).stage ≡ stopped

  lead :
      (d first w : ℕ) (status : SatResult) (lim k : ℕ) (s : State L)
      → FirstAnswer c first w status
      → Reach c lim k s
      → ((num_threads + 4) * (first + margin + 2) + (num_threads + 2)) * num_threads < k + d
      → (k' : ℕ) × (s' : State L) × Steps s s' × Reach c lim k' s' × AllStopped s'
  lead zero first w status lim k s f h low =
      absurd (omega (arith, Reach_bounded c first w status lim k s f h))
  lead (suc d) first w status lim k s f h low = elim (Reach-Step c first w status lim k s f h) [
    | inl all ↦ (k, s, none_left, h, all)
    | inr (s', st) ↦
        let (k', s'', path, reach, all) =
          lead d first w status lim (suc k) s' f (later h st) (omega arith) in
        (k', s'', step st path, reach, all)
  ]

  -- Let thread `w` have the first answer of the plain rounds, in period `first`: a known one that no
  -- thread contradicts up to the margin, nor with an answer that it still comes to after it was told
  -- to stop, with period numbers that fit their word. Then from every state that a launch reaches,
  -- steps lead to a state in which all threads have stopped, and there the sharer has that answer,
  -- that period and that thread.
  pub Reach-AllStopped :
      (first w : ℕ) (status : SatResult) (lim k : ℕ) (s : State L)
      → FirstAnswer c first w status
      → Reach c lim k s
      → (s' : State L) × Steps s s'
        × AllStopped s'
        × (s'.sharer.final_result ≡ status)
        × (s'.sharer.winner_period ≡ first)
        × (s'.sharer.winner_id ≡ pos w)
  Reach-AllStopped first w status lim k s f h =
      let (k', s', path, reach, all) =
        lead (suc (((num_threads + 4) * (first + margin + 2) + (num_threads + 2)) * num_threads))
          first w status lim k s f h (omega arith) in
      let (result, period, id) =
        Reach-winner c first w status lim k' s' f reach (all w f.is_thread) in
      (s', path, all, result, period, id)
