-- ===== src/Parallel/Sharer/Verdict.antt =====
-- When a thread is told to stop, and what that says of the winner.
use dps_pos.Base.{ℕ, ◌+◌, ◌<◌, ◌≤◌, ◌^◌, ◌≡◌, ◌≢◌, ◌⊎◌, refl, Bool, true, false, arith}
use dps_pos.Base.Int.{ℤ}
use dps_pos.Base.Result.{ok}
use dps_pos.Parallel.Sharer.{
  Sharer, SatResult, unknown, i_finished, is_better, should_be_terminated,
}

-- In deterministic mode, with an answer at hand: a thread that is told to stop in a period could not
-- have become the winner. Any report for that period or a later one leaves the state as it is.
pub i_finished-should_be_terminated :
    (s : Sharer) (status : SatResult) (prd later : ℕ) (thn : ℤ)
    → s.non_det ≡ false
    → s.final_result ≢ unknown
    → s.winner_period + s.margin < 2 ^ 64
    → should_be_terminated s prd ≡ true
    → prd ≤ later
    → (status ≡ unknown) ⊎ (status ≡ s.final_result)
    → i_finished s status later thn ≡ ok (s, false)
unfolding i_finished is_better should_be_terminated
i_finished-should_be_terminated s status prd later thn d k room stop h agree = ground arith

-- Once an answer is at hand, a request to stop is never withdrawn: after any report that the method
-- accepts, whoever had to stop still has to.
pub should_be_terminated-i_finished :
    (s t : Sharer) (status : SatResult) (prd at : ℕ) (thn : ℤ) (b : Bool)
    → s.final_result ≢ unknown
    → s.winner_period + s.margin < 2 ^ 64
    → should_be_terminated s prd ≡ true
    → i_finished s status at thn ≡ ok (t, b)
    → should_be_terminated t prd ≡ true
unfolding i_finished is_better should_be_terminated
should_be_terminated-i_finished s t status prd at thn b k room stop e = ground arith

-- A thread that gives up first hides the answer of a later period: with the report of an unknown
-- result for period `p` at hand, a known answer for any period after `p` is dropped, and all
-- threads, in whatever period, have to stop; had the known answer come first, it would have stayed.
pub i_finished-unknown :
    (s : Sharer) (status : SatResult) (p later : ℕ) (i j : ℤ)
    → s.sol_found ≡ false
    → s.final_result ≡ unknown
    → status ≢ unknown
    → p < later
    → (hidden found : Sharer) × (i_finished s unknown p i ≡ ok (hidden, true))
      × (i_finished hidden status later j ≡ ok (hidden, false))
      × (hidden.final_result ≡ unknown)
      × ((prd : ℕ) → should_be_terminated hidden prd ≡ true)
      × (i_finished s status later j ≡ ok (found, true))
      × (i_finished found unknown p i ≡ ok (found, false))
      × (found.final_result ≡ status)
unfolding i_finished is_better should_be_terminated
i_finished-unknown s status p later i j e f k h = (
  record s { sol_found = true; winner_id = i; winner_period = p; final_result = unknown },
  record s { sol_found = true; winner_id = j; winner_period = later; final_result = status },
  ground arith,
  ground arith,
  refl,
  λ prd. refl,
  ground arith,
  ground arith,
  refl,
)
