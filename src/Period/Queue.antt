-- ===== src/Period/Queue.antt =====
-- DPS-src/period/PrdClausesQueue.h and PrdClausesQueue.cpp: the sets of clauses of one thread, by
-- period.
--
-- `queue` is the vector, oldest set first. A set is shared by pointer between the queue and the
-- threads that import it; here it is named by its period, which no two sets of a queue have in
-- common. A method runs under the queue's lock and is one step.
pub mod Invariant
pub mod Addition
pub mod Exportation
pub mod Lookup
mod Tests
use dps_pos.Base.{
  ℕ, zero, suc, ◌+◌, ◌-◌, List, [], ◌∷◌, ◌++◌, Bool, true, false, Option, none, some, length,
  get_elem?, set, replicate, u64, ltb, ◌==◌, if◌then◌else◌,
}
use dps_pos.Base.Result.{Result, ok, fault, ◌>>=◌}
use dps_pos.Period.PrdClauses
use dps_pos.Period.PrdClauses.{PrdClauses}

pub record PrdClausesQueue : Type 0 where
  pub thn : ℕ
  pub num_threads : ℕ
  pub next_period : List ℕ
  pub queue : List PrdClauses

unfoldable pub init : ℕ → ℕ → PrdClausesQueue
init thread_id nb_threads = record {
  thn = thread_id;
  num_threads = nb_threads;
  next_period = replicate nb_threads 0;
  queue = PrdClauses.init thread_id 0 ∷ [];
}

-- `queue.back()`
unfoldable pub last : List PrdClauses → Result PrdClauses
last [] = fault
last (p ∷ []) = ok p
last (p ∷ q ∷ ps) = last (q ∷ ps)

-- A write through the reference to `queue.back()`.
unfoldable pub set_last : List PrdClauses → PrdClauses → List PrdClauses
set_last [] v = []
set_last (p ∷ []) v = v ∷ []
set_last (p ∷ q ∷ ps) v = p ∷ set_last (q ∷ ps) v

-- The loop that removes the sets that were sent to all threads; one set always stays.
unfoldable pub remove_exported : ℕ → List PrdClauses → List PrdClauses
remove_exported n [] = []
remove_exported n (p ∷ []) = p ∷ []
remove_exported n (p ∷ q ∷ ps) =
    let rest = remove_exported n (q ∷ ps) in
    if p.num_exported_threads == n then rest else p ∷ q ∷ ps

unfoldable pub complete_addition : PrdClausesQueue → ℕ → Result PrdClausesQueue
complete_addition q prd_len = do
  p ← last q.queue
  p' ← PrdClauses.complete_addition p prd_len
  ok (record q {
    queue =
        remove_exported q.num_threads
          (set_last q.queue p' ++ (PrdClauses.init q.thn (u64 (p.prd + 1)) ∷ []));
  })

-- `prdClauses.completeExportation` on the set of that period; a set that the queue has dropped is
-- in no other place of the model.
unfoldable pub export_set : ℕ → List PrdClauses → List PrdClauses
export_set period [] = []
export_set period (p ∷ ps) =
    if p.prd == period then PrdClauses.complete_exportation p ∷ ps else p ∷ export_set period ps

nth {ℓ} : {A : Type ℓ} → List A → ℕ → Result A
nth xs i = elim (get_elem? xs i) [ none ↦ fault | some a ↦ ok a ]

unfoldable pub complete_exportation : PrdClausesQueue → ℕ → ℕ → Result PrdClausesQueue
unfolding nth
complete_exportation q thn period = nth q.next_period thn >>= λ p.
    if p == period
    then ok (record q {
      next_period = set q.next_period thn (u64 (p + 1));
      queue = export_set period q.queue;
    })
    else fault

-- The set at the place of period `p`, with the assertions on the place and on its period.
unfoldable pub at_period : ℕ → List PrdClauses → Result PrdClauses
unfolding nth
at_period p [] = fault
at_period p (h ∷ ps) =
    if ltb p h.prd
    then fault
    else nth (h ∷ ps) (p - h.prd) >>= λ s. if s.prd == p then ok s else fault

-- The guard on the front of the queue, under its lock.
next_at : ℕ → List PrdClauses → Result (Option PrdClauses)
next_at p [] = ok none
next_at p (h ∷ ps) = if ltb p h.prd then ok none else at_period p (h ∷ ps) >>= λ s. ok (some s)

-- The next set that `thread` has to import, unless its period lies after `period`.
unfoldable pub get_next : PrdClausesQueue → ℕ → ℕ → Result (Option PrdClauses)
unfolding nth next_at
get_next q thread period =
    nth q.next_period thread >>= λ p. if ltb period p then ok none else next_at p q.queue

-- A thread's own set of `period`.
unfoldable pub get : PrdClausesQueue → ℕ → Result PrdClauses
get q period = at_period period q.queue
