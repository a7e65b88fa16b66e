-- ===== src/Period/Manager.antt =====
-- DPS-src/period/PrdClausesQueueMgr.h and PrdClausesQueueMgr.cpp: one queue for each thread.
use dps_pos.Base.{
  ℕ, zero, suc, ◌+◌, List, [], ◌∷◌, none, some, get_elem?, length, refl, ap, ◌∙◌, ◌≡◌, arith, ◌<◌,
}
use dps_pos.Base.Result.{Result, ok, fault}
use dps_pos.Period.Queue.{PrdClausesQueue, init}

-- `new PrdClausesQueue(i, num_threads)` for the `left` indices from `i` on.
queues_from : ℕ → ℕ → ℕ → List PrdClausesQueue
queues_from n i zero = []
queues_from n i (suc left) = init i n ∷ queues_from n (suc i) left

-- `setNumThreads`, on the manager that the constructor makes: it has no queue yet.
unfoldable pub set_num_threads : ℕ → List PrdClausesQueue
unfolding queues_from
set_num_threads n = queues_from n 0 n

unfoldable pub get : List PrdClausesQueue → ℕ → Result PrdClausesQueue
get queues thread_id = elim (get_elem? queues thread_id) [ none ↦ fault | some q ↦ ok q ]

-- A queue that is there is found.
pub get_at :
    (qs : List PrdClausesQueue) (i : ℕ) (q : PrdClausesQueue)
    → get_elem? qs i ≡ some q
    → get qs i ≡ ok q
unfolding get
get_at qs i q h = rw (h, get) refl

get_queues_from :
    (n i left k : ℕ) → k < left → get_elem? (queues_from n i left) k ≡ some (init (i + k) n)
unfolding queues_from
get_queues_from n i zero k h = absurd (omega arith)
get_queues_from n i (suc left) zero h = let e : i + 0 ≡ i = omega arith in rw e
get_queues_from n i (suc left) (suc k) h =
    let e : i + suc k ≡ suc i + k = omega arith in
    rw e (get_queues_from n (suc i) left k (omega arith))

pub get_elem?-set_num_threads :
    (n k : ℕ) → k < n → get_elem? (set_num_threads n) k ≡ some (init k n)
unfolding set_num_threads
get_elem?-set_num_threads n k h =
    let e : 0 + k ≡ k = omega arith in get_queues_from n 0 n k h ∙ ap (λ i. some (init i n)) e

length-queues_from : (n i left : ℕ) → length (queues_from n i left) ≡ left
unfolding queues_from
length-queues_from n i zero = refl
length-queues_from n i (suc left) = ap suc (length-queues_from n (suc i) left)

pub length-set_num_threads : (n : ℕ) → length (set_num_threads n) ≡ n
unfolding set_num_threads
length-set_num_threads n = length-queues_from n 0 n

-- Each thread below the number of threads has its own queue, new and empty.
pub get-set_num_threads : (n k : ℕ) → k < n → get (set_num_threads n) k ≡ ok (init k n)
unfolding get
get-set_num_threads n k h = rw (get_elem?-set_num_threads n k h, get) refl
