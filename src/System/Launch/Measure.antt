-- ===== src/System/Launch/Measure.antt =====
-- Every step brings a launch nearer to its end.
use dps_pos.Base.{
  ℕ, zero, suc, ◌+◌, ◌*◌, ◌-◌, ◌<◌, ◌≤◌, ◌≡◌, ◌≢◌, refl, ap, subst, ◌∙◌, true, false, ◌==◌,
  if◌then◌else◌, arith, Bool-cases, inl, inr, Bool,
}
use native.Mathlib.Nat.{mul-suc}
use dps_pos.Parallel.Sharer.{SatResult, should_be_terminated}
use dps_pos.System.{update}
use dps_pos.System.Launch.{
  Program, Stage, searching, taking, checking, told, reported, stopped, Worker, State, launch, Step,
  finish, take, move, check, restart, solve, give_up, answer_late, close, Reach, start, later,
}
use dps_pos.System.Launch.Invariant.{Inv}
use dps_pos.System.Launch.Steps.{at_stage}
use dps_pos.System.Launch.Plain.{FirstAnswer}
use dps_pos.System.Launch.Outcome.{Reach-Inv}

total : (ℕ → ℕ) → ℕ → ℕ
total f zero = 0
total f (suc n) = f n + total f n

total_same : (f g : ℕ → ℕ) (n : ℕ) → ((u : ℕ) → u < n → g u ≡ f u) → total g n ≡ total f n
unfolding total
total_same f g zero h = refl
total_same f g (suc n) h =
    omega (arith, h n (omega arith), total_same f g n (λ u a. h u (omega arith)))

-- One of the numbers falls.
total_less :
    (f g : ℕ → ℕ) (n t : ℕ)
    → t < n
    → g t < f t
    → ((u : ℕ) → u ≢ t → g u ≡ f u)
    → total g n < total f n
unfolding total
total_less f g zero t l k h = absurd (omega arith)
total_less f g (suc n) t l k h = elim (Bool-cases (t == n)) [
  | inl last ↦
      let e : t ≡ n = ground arith in
      let rest = total_same f g n (λ u a. h u (omega arith)) in
      omega (arith, rest, subst (λ i. g i < f i) e k)
  | inr before ↦
      let a : n ≢ t = ground arith in omega (arith, h n a, total_less f g n t (ground arith) k h)
]

total_all : (a n : ℕ) → total (λ _. a) n ≡ a * n
unfolding total
total_all a zero = omega arith
total_all a (suc n) = omega (arith, total_all a n, mul-suc a n)

module _ {L : Type 0} (c : Program L) (first w : ℕ) (status : SatResult) where
  open c use {setup}
  open setup use {num_threads, margin}

  -- The steps that a thread can still take in its period.
  abbrev stage_steps : Stage → ℕ
  stage_steps searching = num_threads + 2
  stage_steps (taking i m) = 1 + (num_threads - i)
  stage_steps checking = num_threads + 3
  stage_steps told = 2
  stage_steps reported = 1
  stage_steps stopped = 0

  abbrev steps_left : Worker L → ℕ
  steps_left x = (num_threads + 4) * (first + margin + 2 - x.period) + stage_steps x.stage

  abbrev all_left : State L → ℕ
  all_left s = total (λ t. steps_left (s.workers t)) num_threads

  left_update :
      (f : ℕ → Worker L) (t : ℕ) (x : Worker L)
      → t < num_threads
      → steps_left x < steps_left (f t)
      → total (λ u. steps_left (update f t x u)) num_threads
        < total (λ u. steps_left (f u)) num_threads
  left_update f t x l k =
      let self : (t == t) ≡ true = ground arith in
      total_less (λ u. steps_left (f u)) (λ u. steps_left (update f t x u)) num_threads t l
        (rw self k) (λ u d. let other : (t == u) ≡ false = ground arith in rw other refl)

  in_period :
      (f : ℕ → Worker L) (t : ℕ) (l' : L) (g h : Stage)
      → t < num_threads
      → (f t).stage ≡ g
      → stage_steps h < stage_steps g
      → total
          (λ u. steps_left (update f t (record { local = l'; period = (f t).period; stage = h }) u))
          num_threads
        < total (λ u. steps_left (f u)) num_threads
  in_period f t l' g h l e k = left_update f t _ l (omega (arith, k, ap stage_steps e))

  check_steps : (b : Bool) → stage_steps (if b then told else searching) < stage_steps checking
  check_steps true = omega arith
  check_steps false = omega arith

  Step_less : (s s' : State L) → Inv c first w status s → Step c s s' → all_left s' < all_left s
  Step_less s _ v (finish t l e a at run) = in_period s.workers t _ searching _ l e (omega arith)
  Step_less s _ v (take t i l e li lm at run) =
      in_period s.workers t _ (taking i _) _ l e (omega arith)
  Step_less s _ v (move t i l e d) =
      let low = at_stage c first w status s t (taking i _) v l e in
      let a : first + margin + 2 - (s.workers t).period
          ≡ suc (first + margin + 2 - ((s.workers t).period + 1)) =
        omega (arith, low.0) in
      left_update s.workers t _ l (
        omega (
          arith,
          ap (◌*◌ (num_threads + 4)) a,
          mul-suc (num_threads + 4) (first + margin + 2 - ((s.workers t).period + 1)),
          ap stage_steps e,
        ))
  Step_less s _ v (check t l e) =
      in_period s.workers t _ checking _ l e
        (check_steps (should_be_terminated s.sharer (s.workers t).period))
  Step_less s _ v (restart t l e stop) = in_period s.workers t _ searching _ l e (omega arith)
  Step_less s _ v (solve t l e a run) = in_period s.workers t _ searching _ l e (omega arith)
  Step_less s _ v (give_up t l e run) = in_period s.workers t _ told _ l e (omega arith)
  Step_less s _ v (answer_late t l e a run) = in_period s.workers t _ told _ l e (omega arith)
  Step_less s _ v (close t l e run) = in_period s.workers t _ reported _ l e (omega arith)

  launch_left :
      (lim : ℕ)
      → all_left (launch c lim)
        ≡ ((num_threads + 4) * (first + margin + 2) + (num_threads + 2)) * num_threads
  unfolding launch
  launch_left lim =
      let e : first + margin + 2 - 0 ≡ first + margin + 2 = omega arith in
      total_all _ num_threads
      ∙ ap (λ x. ((num_threads + 4) * x + (num_threads + 2)) * num_threads) e

  steps_spent :
      (lim k : ℕ) (s : State L)
      → FirstAnswer c first w status
      → Reach c lim k s
      → k + all_left s ≤ all_left (launch c lim)
  steps_spent lim _ _ f start = omega arith
  steps_spent lim _ _ f (later {k = k} {s = s} {s' = s'} h st) =
      omega
        (arith, steps_spent lim k s f h, Step_less s s' (Reach-Inv c first w status lim k s f h) st)

  -- Let thread `w` have the first answer of the plain rounds, in period `first`: a known one that no
  -- thread contradicts up to the margin, nor with an answer that it still comes to after it was told
  -- to stop, with period numbers that fit their word. Then a launch ends: it has at most this number
  -- of steps, in any order, which depends on `first`, the margin and the number of threads alone.
  pub Reach_bounded :
      (lim k : ℕ) (s : State L)
      → FirstAnswer c first w status
      → Reach c lim k s
      → k ≤ ((num_threads + 4) * (first + margin + 2) + (num_threads + 2)) * num_threads
  Reach_bounded lim k s f h = omega (arith, steps_spent lim k s f h, launch_left lim)
