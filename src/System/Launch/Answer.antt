-- ===== src/System/Launch/Answer.antt =====
-- The reports of a launch as the sharer sees them, when every known answer is `status` and thread
-- `w` has the first of them, in period `first`.
use dps_pos.Base.{
  ℕ, ◌+◌, ◌*◌, ◌<◌, ◌≤◌, ◌^◌, ◌≡◌, ◌≢◌, ◌⊎◌, ◌∙◌, ◌||◌, ap, sym, refl, Bool, true, false, arith,
  Bool-cases, inl, inr,
}
use dps_pos.Base.Int.{pos}
use dps_pos.Base.Result.{ok}
use dps_pos.Parallel.Sharer.{
  Sharer, SatResult, sat, unsat, unknown, same, i_finished, is_better, should_be_terminated,
}

same_self : (s : SatResult) → same s s ≡ true
same_self sat = refl
same_self unsat = refl
same_self unknown = refl

module _ (first w margin : ℕ) (status : SatResult) where
  -- A report for period `p` by thread `j` is that of thread `w` for `first`, or comes after it.
  abbrev pub Follows : ℕ → ℕ → Type 0
  Follows p j = (first < p) ⊎ ((first ≡ p) × (w ≤ j))

  abbrev pub Nobody : Sharer → Type 0
  Nobody x = (x.sol_found ≡ false) × (x.final_result ≡ unknown)

  abbrev pub Somebody : Sharer → Type 0
  Somebody x =
      (j : ℕ) × (x.sol_found ≡ true)
      × (x.final_result ≡ status)
      × (x.winner_id ≡ pos j)
      × Follows x.winner_period j
      × (x.winner_period ≤ first + margin)

  -- No thread has an answer yet, or one of those that may win.
  abbrev pub Verdict : Sharer → Type 0
  Verdict x = Nobody x ⊎ Somebody x

  -- Thread `w` has won with its answer.
  pub record Settled (x : Sharer) : Type 0 where
    pub sol_found : x.sol_found ≡ true
    pub final_result : x.final_result ≡ status
    pub winner_period : x.winner_period ≡ first
    pub winner_id : x.winner_id ≡ pos w

  pub record Accepted (x : Sharer) (p t : ℕ) (y : Sharer) : Type 0 where
    pub verdict : Verdict y
    pub same_queues : y.pcqm ≡ x.pcqm
    pub same_margin : y.margin ≡ x.margin
    pub same_mode : y.non_det ≡ x.non_det
    pub wins : first ≡ p → w ≡ t → Settled y
    pub stays : Settled x → Settled y

  known-fits :
      (x : Sharer)
      → Verdict x
      → (same status unknown || same x.final_result unknown || same x.final_result status) ≡ true
  known-fits x (inl v) = ground arith
  known-fits x (inr v) = ground (arith, same_self status)

  better-Settled :
      (x : Sharer) (p t : ℕ)
      → status ≢ unknown
      → Settled x
      → Follows p t
      → is_better x status p (pos t) ≢ true
  unfolding is_better
  better-Settled x p t k s after e = ground (arith, s.sol_found, s.winner_period, s.winner_id)

  worse-Settled :
      (x : Sharer) (p t : ℕ)
      → status ≢ unknown
      → Verdict x
      → first ≡ p
      → w ≡ t
      → is_better x status p (pos t) ≡ false
      → Settled x
  unfolding is_better
  worse-Settled x p t k (inl (v, _)) e f worse = absurd (ground arith)
  worse-Settled x p t k (inr (j, found, final, id, after, low)) e f worse =
      let same_period : x.winner_period ≡ first = ground arith in
      let same_id : j ≡ w = ground arith in
      record {
        sol_found = found;
        final_result = final;
        winner_period = same_period;
        winner_id = id ∙ ap pos same_id;
      }

  -- The report of a known answer, on time: it is accepted.
  pub i_finished-Accepted :
      (x : Sharer) (p t : ℕ)
      → status ≢ unknown
      → Verdict x
      → Follows p t
      → p ≤ first + margin
      → (r : Sharer × Bool) × (i_finished x status p (pos t) ≡ ok r) × Accepted x p t r.0
  unfolding i_finished is_better
  i_finished-Accepted x p t k v after low = elim (Bool-cases (is_better x status p (pos t))) [
    | inl better ↦ (
      (
        record x { sol_found = true; winner_id = pos t; winner_period = p; final_result = status },
        true,
      ),
      rw (known-fits x v) (rw better refl),
      record {
        verdict = inr (t, refl, refl, refl, after, low);
        same_queues = refl;
        same_margin = refl;
        same_mode = refl;
        wins = λ e f. record {
          sol_found = refl;
          final_result = refl;
          winner_period = sym e;
          winner_id = ap pos (sym f);
        };
        stays = λ s. absurd (better-Settled x p t k s after better);
      },
    )
    | inr worse ↦ (
      (x, false),
      rw (known-fits x v) (rw worse refl),
      record {
        verdict = v;
        same_queues = refl;
        same_margin = refl;
        same_mode = refl;
        wins = λ e f. worse-Settled x p t k v e f worse;
        stays = λ s. s;
      },
    )
  ]

  pub i_finished-Settled :
      (x : Sharer) (p t : ℕ)
      → status ≢ unknown
      → Settled x
      → i_finished x unknown p (pos t) ≡ ok (x, false)
  unfolding i_finished is_better
  i_finished-Settled x p t k s = ground (arith, s.sol_found, s.final_result)

  -- Nothing changes with a known answer that comes after the margin.
  pub i_finished-late :
      (x : Sharer) (p t : ℕ)
      → status ≢ unknown
      → Settled x
      → first < p
      → i_finished x status p (pos t) ≡ ok (x, false)
  unfolding i_finished is_better
  i_finished-late x p t k s late =
      ground (arith, s.sol_found, s.final_result, s.winner_period, same_self status)

  -- After the margin a thread is told to stop once the answer is there, and not before.
  pub should_be_terminated-Settled :
      (x : Sharer) (p : ℕ)
      → x.margin ≡ margin
      → first + margin < 2 ^ 64
      → Settled x
      → first + margin < p
      → should_be_terminated x p ≡ true
  unfolding should_be_terminated
  should_be_terminated-Settled x p m room s late = ground (arith, s.sol_found, s.winner_period)

  pub should_be_terminated-late :
      (x : Sharer) (p : ℕ)
      → x.margin ≡ margin
      → x.non_det ≡ false
      → first + 2 * margin < 2 ^ 64
      → status ≢ unknown
      → Verdict x
      → should_be_terminated x p ≡ true
      → first + margin < p
  unfolding should_be_terminated
  should_be_terminated-late x p m d room k v stop = ground arith
