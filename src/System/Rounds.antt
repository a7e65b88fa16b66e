-- ===== src/System/Rounds.antt =====
-- The same run without concurrency: all threads go through their periods in rounds, and each takes
-- over what the others have exported `margin` rounds before. This is what the threads compute.
use dps_pos.Base.{
  ℕ, zero, suc, ◌+◌, ◌-◌, ◌%◌, ◌<◌, ◌≡◌, refl, ap, [], ◌∷◌, ltb, ◌==◌, if◌then◌else◌, arith,
  Bool-cases, inl, inr,
}
use mathlib.Core.Path.{fun_ext}
use dps_pos.Solver.Import.{Imports}
use dps_pos.Solver.Import.Window.{Parcel, receive}
use dps_pos.System.{Setup}

module _ {L : Type 0} (c : Setup L) where
  open c use {num_threads, margin, first, work, held, absorb}

  -- What thread `t` takes over from the `k` threads at the distances from `i` on, where `out` says
  -- what each thread has exported.
  pub gather : (ℕ → Parcel) → ℕ → ℕ → ℕ → Imports → Imports
  gather out t i zero m = m
  gather out t i (suc k) m = gather out t (suc i) k (receive (out ((t + i) % num_threads) ∷ []) m)

  -- The threads' states at the start of a round, and what they have exported in each round before.
  pub record Round : Type 0 where
    pub state : ℕ → L
    pub sent : ℕ → ℕ → Parcel

  with_exports : ℕ → Round → ℕ → ℕ → Parcel
  with_exports r h p u = if p == r then (work (h.state u)).1 else h.sent p u

  next_round : ℕ → Round → Round
  unfolding with_exports
  next_round r h = record {
    sent = with_exports r h;
    state = λ t.
        let l = (work (h.state t)).0 in
        absorb l (
          if ltb r margin
          then held l
          else gather (with_exports r h (r - margin)) t 1 (num_threads - 1) (held l));
  }

  rounds : ℕ → Round
  unfolding next_round
  rounds zero = record { state = first; sent = λ p u. record { clauses = []; prd_len = 0 } }
  rounds (suc r) = next_round r (rounds r)

  -- The state of thread `t` at the start of its period `r`, and what it exports in that period.
  pub state_at : ℕ → ℕ → L
  state_at r t = (rounds r).state t

  pub export_at : ℕ → ℕ → Parcel
  export_at r t = (work (state_at r t)).1

  sent-rounds : (r p u : ℕ) → p < r → (rounds r).sent p u ≡ export_at p u
  unfolding rounds export_at state_at
  sent-rounds zero p u h = absurd (omega arith)
  sent-rounds (suc r) p u h = elim (Bool-cases (p == r)) [
    | inl now ↦ let e : p ≡ r = ground arith in rw (now, with_exports) (rw e)
    | inr before ↦ rw (before, with_exports) (sent-rounds r p u (ground arith))
  ]

  -- The step from one round to the next, in terms of the exports.
  pub state_at-suc :
      (r t : ℕ)
      → state_at (suc r) t
        ≡ absorb (work (state_at r t)).0 (
            if ltb r margin
            then held (work (state_at r t)).0
            else gather
                (export_at (r - margin))
                t
                1
                (num_threads - 1)
                (held (work (state_at r t)).0))
  unfolding state_at rounds
  state_at-suc r t =
      let same : with_exports r (rounds r) (r - margin) ≡ export_at (r - margin) =
        fun_ext (λ u. sent-rounds (suc r) (r - margin) u (omega arith)) in
      rw same

  pub work-export_at : (r t : ℕ) (l : L) → l ≡ state_at r t → (work l).1 ≡ export_at r t
  unfolding export_at
  work-export_at r t l e = ap (λ x. (work x).1) e

  pub gather_none : (out : ℕ → Parcel) (t i : ℕ) (m : Imports) → gather out t i 0 m ≡ m
  unfolding gather
  gather_none out t i m = refl

  pub gather_one :
      (out : ℕ → Parcel) (t i k : ℕ) (m : Imports)
      → gather out t i (suc k) m
        ≡ gather out t (suc i) k (receive (out ((t + i) % num_threads) ∷ []) m)
  unfolding gather
  gather_one out t i k m = refl

  pub state_at_zero : (t : ℕ) → state_at 0 t ≡ first t
  unfolding state_at rounds
  state_at_zero t = refl
