-- ===== src/Parallel/Sharer/Tests.antt =====
-- Runs of the sharer's methods, and its theorems at two and three reports.
use dps_pos.Base.{ℕ, ◌≡◌, ◌≢◌, ◌↔◌, refl, inl, inr, [], ◌∷◌, true, false, All, arith}
use dps_pos.Base.Int.{pos}
use dps_pos.Base.Result.{ok}
use dps_pos.Parallel.Sharer.{Sharer, sat, unknown, init, i_finished, should_be_terminated}
use dps_pos.Parallel.Sharer.Winner.{Report, AtMost, Has, finish_all, finish_all-IsBest}
use dps_pos.Parallel.Sharer.Verdict.{i_finished-should_be_terminated, i_finished-unknown}

abbrev fresh : Sharer
fresh = init 3 20 1000 false

abbrev early : Report
early = record { prd = 5; thn = pos 2 }

abbrev tie : Report
tie = record { prd = 5; thn = pos 1 }

abbrev late : Report
late = record { prd = 9; thn = pos 0 }

-- The state after thread 1 has reported an answer in period 5.
abbrev answered : Sharer
answered = record fresh {
  sol_found = true;
  winner_id = pos 1;
  winner_period = 5;
  final_result = sat;
}

sat_known : sat ≢ unknown
sat_known e = cc

finish_all-IsBest_example :
    (b : Report) × (finish_all sat fresh (late ∷ early ∷ tie ∷ [])
      ≡ ok (record fresh {
        sol_found = true;
        winner_id = b.thn;
        winner_period = b.prd;
        final_result = sat;
      }))
    × Has b (late ∷ early ∷ tie ∷ [])
    × All (AtMost b) (late ∷ early ∷ tie ∷ [])
unfolding init
finish_all-IsBest_example = finish_all-IsBest sat fresh late (early ∷ tie ∷ []) sat_known refl refl

same_two : (x : Report) → Has x (late ∷ tie ∷ []) ↔ Has x (tie ∷ late ∷ [])
same_two x = (λ h. turn late tie h, λ h. turn tie late h)
  where
    turn : (a b : Report) → Has x (a ∷ b ∷ []) → Has x (b ∷ a ∷ [])
    turn a b (inl e) = inr (inl e)
    turn a b (inr (inl e)) = inl e
    turn a b (inr (inr e)) = absurd e

stops : should_be_terminated answered 26 ≡ true
unfolding should_be_terminated init
stops = refl

goes_on : should_be_terminated answered 25 ≡ false
unfolding should_be_terminated init
goes_on = refl

i_finished-should_be_terminated_example : i_finished answered sat 30 (pos 0) ≡ ok (answered, false)
unfolding init
i_finished-should_be_terminated_example =
    i_finished-should_be_terminated answered sat 26 30 (pos 0) refl sat_known (omega arith) stops
      (omega arith) (inr refl)

better :
    i_finished answered sat 4 (pos 2)
    ≡ ok (record answered { winner_id = pos 2; winner_period = 4 }, true)
unfolding i_finished
better = refl

i_finished-unknown_example :
    (hidden found : Sharer) × (i_finished fresh unknown 5 (pos 0) ≡ ok (hidden, true))
    × (i_finished hidden sat 6 (pos 1) ≡ ok (hidden, false))
    × (hidden.final_result ≡ unknown)
    × ((prd : ℕ) → should_be_terminated hidden prd ≡ true)
    × (i_finished fresh sat 6 (pos 1) ≡ ok (found, true))
    × (i_finished found unknown 5 (pos 0) ≡ ok (found, false))
    × (found.final_result ≡ sat)
unfolding init
i_finished-unknown_example =
    i_finished-unknown fresh sat 5 6 (pos 0) (pos 1) refl refl sat_known (omega arith)
