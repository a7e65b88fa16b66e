-- ===== src/Period/Wait/Tests.antt =====
-- Waiting for an empty set of period 4.
use dps_pos.Base.{◌≡◌, ◌≢◌, ◌⊎◌, Bool, true, false, refl}
use dps_pos.Period.PrdClauses.{PrdClauses, init, complete_addition}
use dps_pos.Period.Wait.{
  entering, asleep, returned, Meeting, test_completed, broadcast, becomes, complete, test, return,
  Reach, start, later,
}
use dps_pos.Period.Wait.Order.{Reach-returned, Reach_early}

abbrev fourth : PrdClauses
fourth = init 0 4

-- The thread 1 goes to sleep, the set is completed, and the thread returns.
abbrev met : Meeting
met = record {
  prd_clauses = record fourth { completed = true; prd_len = 9 };
  waiters =
      becomes (λ j. broadcast (becomes (λ k. entering) 1 (test_completed fourth.completed) j)) 1
        returned;
}

meets : Reach false fourth met
unfolding init complete_addition test_completed broadcast
meets = later (later (later start (test 1 refl)) (complete 9 refl)) (return 1 refl)

Reach-returned_example :
    ((met.waiters 1 ≢ asleep) ⊎ (met.prd_clauses.completed ≡ false))
    × ((met.waiters 1 ≢ returned)
        ⊎ ((◌≡◌ {A = Bool} false true) ⊎ (met.prd_clauses.completed ≡ true)))
Reach-returned_example = Reach-returned false fourth met 1 meets

Reach_early_example :
    (s : Meeting) × Reach true fourth s
    × (s.waiters 1 ≡ returned)
    × (s.prd_clauses.completed ≡ false)
unfolding init
Reach_early_example = Reach_early fourth 1 refl
