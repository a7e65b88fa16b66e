-- ===== src/Period/Queue/Tests.antt =====
-- Runs of the queue's methods, and the queue theorems at a queue of two sets.
use dps_pos.Base.{
  ◌+◌, ◌<◌, ◌≤◌, ◌≡◌, refl, ◌⊎◌, [], ◌∷◌, true, false, none, some, length, get_elem?, set, arith,
  ltb, ◌-◌,
}
use dps_pos.Base.Result.{ok}
use dps_pos.Period.PrdClauses.{PrdClauses}
use dps_pos.Period.Queue.{
  PrdClausesQueue, complete_addition, complete_exportation, export_set, get_next, last,
  remove_exported, set_last,
}
use dps_pos.Period.PrdClauses
use dps_pos.Period.Queue.Invariant.{past, IsQueue}
use dps_pos.Period.Queue.Addition.{Addition, complete_addition-IsQueue, complete_addition-waiting}
use dps_pos.Period.Queue.Exportation.{complete_exportation-IsQueue}
use dps_pos.Period.Queue.Lookup.{get_next-IsQueue}

-- Thread 0 of two has completed period 0, which thread 1 has not imported yet.
abbrev done : PrdClauses
done = record {
  thn = 0;
  prd = 0;
  prd_len = 7;
  num_literals = 0;
  clauses = [];
  num_exported_threads = 1;
  completed = true;
}

abbrev filling : PrdClauses
filling = record {
  thn = 0;
  prd = 1;
  prd_len = 0;
  num_literals = 0;
  clauses = [];
  num_exported_threads = 0;
  completed = false;
}

abbrev two_sets : PrdClausesQueue
two_sets = record {
  thn = 0;
  num_threads = 2;
  next_period = 1 ∷ 0 ∷ [];
  queue = done ∷ filling ∷ [];
}

two_sets-IsQueue : IsQueue 0 two_sets
unfolding past
two_sets-IsQueue = record {
  sets = (refl, refl, refl, (refl, refl, refl, tt));
  some_set = omega arith;
  threads = refl;
  kept = omega arith;
  behind = omega arith;
  fits = omega arith;
}

-- With both threads past period 0, the next call drops its set.
dropped :
    complete_addition
      (record two_sets {
        next_period = 1 ∷ 1 ∷ [];
        queue = record done { num_exported_threads = 2 } ∷ filling ∷ [];
      })
      9
    ≡ ok (record two_sets {
      next_period = 1 ∷ 1 ∷ [];
      queue = record filling { completed = true; prd_len = 9 } ∷ PrdClauses.init 0 2 ∷ [];
    })
unfolding complete_addition last set_last remove_exported PrdClauses.complete_addition
    PrdClauses.init
dropped = refl

complete_addition-IsQueue_example :
    (q' : PrdClausesQueue) × (complete_addition two_sets 9 ≡ ok q') × Addition 0 9 two_sets q'
complete_addition-IsQueue_example =
    complete_addition-IsQueue 0 9 two_sets two_sets-IsQueue (omega arith)

complete_addition-waiting_example :
    (q' : PrdClausesQueue) × (complete_addition two_sets 9 ≡ ok q')
    × IsQueue 0 q'
    × (length q'.queue ≡ 3)
    × (get_elem? q'.next_period 1 ≡ some 0)
complete_addition-waiting_example =
    complete_addition-waiting 0 9 1 two_sets two_sets-IsQueue (omega arith) refl

complete_exportation-IsQueue_example :
    (q' : PrdClausesQueue) × (complete_exportation two_sets 1 0 ≡ ok q')
    × IsQueue 0 q'
    × (q'.next_period ≡ set two_sets.next_period 1 (0 + 1))
    × (q'.queue ≡ export_set 0 two_sets.queue)
complete_exportation-IsQueue_example =
    complete_exportation-IsQueue 0 1 0 two_sets two_sets-IsQueue refl (omega arith)

get_next-IsQueue_example :
    ((4 < 0) × (get_next two_sets 1 4 ≡ ok none))
    ⊎ ((s : PrdClauses) × (0 ≤ 4)
        × (get_next two_sets 1 4 ≡ ok (some s))
        × (s.prd ≡ 0)
        × (get_elem? two_sets.queue (0 - 0) ≡ some s)
        × (s.completed ≡ ltb 1 (0 + 2)))
get_next-IsQueue_example = get_next-IsQueue 0 two_sets two_sets-IsQueue 1 0 4 refl
