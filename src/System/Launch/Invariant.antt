-- ===== src/System/Launch/Invariant.antt =====
-- What holds in every state of a launch, when every known answer is `status` and thread `w` has the
-- first of them, in period `first`.
use dps_pos.Base.{
  ℕ, ◌+◌, ◌*◌, ◌<◌, ◌≤◌, ◌^◌, ◌≡◌, ◌≢◌, ◌⊎◌, refl, subst, Option, none, some, false, ◌==◌, ltb,
  arith, Bool-cases, inl, inr,
}
use dps_pos.Parallel.Sharer.{SatResult, unknown}
use dps_pos.Period.Queue.Invariant.{All-get}
use dps_pos.System.{Setup}
use dps_pos.System.Rounds.{state_at}
use dps_pos.System.Invariant.{closed, closed_by, Valid}
use dps_pos.System.Launch.{
  Program, Stage, searching, taking, checking, told, reported, stopped, State,
}
use dps_pos.System.Launch.Shadow.{shadow, system_of, thread_of, phase_of}
use dps_pos.System.Launch.Answer.{Follows, Verdict, Settled}
use dps_pos.Parallel.Sharer.{Sharer}

module _ {L : Type 0} (c : Program L) (first w : ℕ) (status : SatResult) where
  open c use {setup, answer, late_answer, last_len}
  open setup use {num_threads, margin}

  -- The period in which every thread has stopped.
  abbrev pub end : ℕ
  end = first + margin + 1

  abbrev pub to_end : Setup (ℕ × L)
  to_end = shadow c end

  -- How the search of thread `t` ends in period `p`.
  unfoldable pub found_at : ℕ → ℕ → Option SatResult
  found_at p t = answer (state_at to_end p t).1

  abbrev pub Quiet : ℕ → ℕ → Type 0
  Quiet p t = (r : ℕ) → r < p → found_at r t ≡ none

  pub record Expected : Type 0 where
    pub is_thread : w < num_threads
    pub known : status ≢ unknown
    pub room : first + 2 * margin + 4 < 2 ^ 64
    pub answers : found_at first w ≡ some status
    pub later_answers :
        (p t : ℕ) (x : SatResult)
        → t < num_threads
        → p ≤ first + margin
        → Quiet p t
        → found_at p t ≡ some x
        → (x ≡ status) × Follows first w margin status p t
    pub late_agree :
        (t : ℕ) (x : SatResult)
        → t < num_threads
        → Quiet end t
        → late_answer (state_at to_end end t).1 ≡ some x
        → x ≡ status

  abbrev pub OnStage : ℕ → ℕ → Stage → Type 0
  OnStage t p searching = p ≤ first + margin
  OnStage t p (taking i m) = (p ≤ first + margin) × (found_at p t ≡ none)
  OnStage t p checking = p ≤ end
  OnStage t p told = p ≡ end
  OnStage t p reported = (p ≡ end) ⊎ ((p ≤ first + margin) × (found_at p t ≡ some status))
  OnStage t p stopped = (p ≡ end) ⊎ ((p ≤ first + margin) × (found_at p t ≡ some status))

  -- A thread that has reported, if it is thread `w`, has settled the answer.
  abbrev pub SettledBy : Stage → Sharer → Type 0
  SettledBy reported x = Settled first w margin status x
  SettledBy stopped x = Settled first w margin status x
  SettledBy _ x = Unit

  pub record Inv (s : State L) : Type 0 where
    pub valid : Valid to_end (system_of c end s)
    pub same_margin : s.sharer.margin ≡ margin
    pub same_mode : s.sharer.non_det ≡ false
    pub verdict : Verdict first w margin status s.sharer
    pub on_stage : (t : ℕ) → t < num_threads → OnStage t (s.workers t).period (s.workers t).stage
    pub quiet : (t : ℕ) → t < num_threads → Quiet (s.workers t).period t
    pub settled : SettledBy (s.workers w).stage s.sharer

  pub not_over : Expected → (p : ℕ) → Quiet p w → p ≤ first
  not_over e p h = elim (Bool-cases (ltb first p)) [
    | inl over ↦
        let a : found_at first w ≡ none = h first (ground arith) in
        let b : found_at first w ≡ some status = e.answers in absurd (cc)
    | inr early ↦ ground arith
  ]

  closed_stage :
      (s : State L) (g : Stage)
      → Expected
      → (s.workers w).period ≤ first
      → first < closed (s.workers w).period (phase_of c end (s.workers w).local g)
      → OnStage w (s.workers w).period g
      → SettledBy g s.sharer
      → Settled first w margin status s.sharer
  closed_stage s searching e low h on d = absurd (omega arith)
  closed_stage s (taking i m) e low h on d =
      let now : (s.workers w).period ≡ first = omega arith in
      let a : found_at first w ≡ none = subst (λ p. found_at p w ≡ none) now on.1 in
      let b : found_at first w ≡ some status = e.answers in absurd (cc)
  closed_stage s checking e low h on d = absurd (omega arith)
  closed_stage s told e low h on d = absurd (omega arith)
  closed_stage s reported e low h on d = d
  closed_stage s stopped e low h on d = d

  -- Once thread `w` has completed the set of period `first`, it has reported its answer.
  closed-Settled :
      (s : State L) (g : Stage)
      → Expected
      → Inv s
      → (s.workers w).stage ≡ g
      → first < closed_by (thread_of c end (s.workers w))
      → Settled first w margin status s.sharer
  closed-Settled s g e v at h =
      let k : first < closed (s.workers w).period (phase_of c end (s.workers w).local g) =
        subst (λ x. first < closed (s.workers w).period (phase_of c end (s.workers w).local x)) at
          h in
      let low : (s.workers w).period ≤ first =
        not_over e (s.workers w).period (v.quiet w e.is_thread) in
      closed_stage s g e low k
        (subst (OnStage w (s.workers w).period) at (v.on_stage w e.is_thread))
        (subst (λ x. SettledBy x s.sharer) at v.settled)

  -- A thread that enters the last period has imported that set.
  pub end-Settled :
      (s : State L) (t : ℕ)
      → Expected
      → Inv s
      → t < num_threads
      → (s.workers t).period ≡ end
      → Settled first w margin status s.sharer
  end-Settled s t e v l at = elim (Bool-cases (t == w)) [
    | inl same ↦
        let k : t ≡ w = ground arith in
        let low : end ≤ first =
          not_over e end (subst (Quiet end) k (subst (λ p. Quiet p t) at (v.quiet t l))) in
        absurd (omega arith)
    | inr other ↦
        let away : t ≢ w = ground arith in
        let (q, _, h) = v.valid.queue_of w e.is_thread in
        let seen = All-get _ q.next_period t _ h.valid.behind (h.next t l away) in
        closed-Settled s (s.workers w).stage e v refl (ground (arith, seen, h.size, at))
  ]
