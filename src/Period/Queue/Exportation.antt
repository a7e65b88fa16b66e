-- ===== src/Period/Queue/Exportation.antt =====
-- `PrdClausesQueue::completeExportation`: a thread has imported the set of a period.
use dps_pos.Base.{
  ℕ, suc, ◌+◌, ◌≤◌, ◌<◌, ◌≡◌, refl, List, [], ◌∷◌, some, length, get_elem?, set, arith, inl, inr,
  Bool-cases, ◌∙◌, ◌==◌, length-set,
}
use dps_pos.Base.Result.{ok}
use dps_pos.Period.PrdClauses
use dps_pos.Period.PrdClauses.{PrdClauses}
use dps_pos.Period.Queue.{PrdClausesQueue, nth, export_set, complete_exportation}
use dps_pos.Period.Queue.Invariant.{Sets, IsQueue, past-set, All-get, All-set}

pub length-export_set : (p : ℕ) (xs : List PrdClauses) → length (export_set p xs) ≡ length xs
unfolding export_set
length-export_set p [] = refl
length-export_set p (x ∷ xs) = ground (arith, length-export_set p xs)

module _ (nexts : List ℕ) (t p : ℕ) (at : get_elem? nexts t ≡ some p) where
  -- The sets after period `p` count the same threads.
  Sets-above :
      (f : ℕ) (xs : List PrdClauses) → p < f → Sets nexts f xs → Sets (set nexts t (p + 1)) f xs
  Sets-above f [] a h = tt
  Sets-above f (x ∷ xs) a h =
      (h.0, ground (arith, past-set f p t nexts at), h.2, Sets-above (suc f) xs (omega arith) h.3)

  Sets-exported :
      (f : ℕ) (xs : List PrdClauses)
      → f ≤ p
      → Sets nexts f xs
      → Sets (set nexts t (p + 1)) f (export_set p xs)
  unfolding export_set PrdClauses.complete_exportation
  Sets-exported f [] a h = tt
  Sets-exported f (x ∷ xs) a h = elim (Bool-cases (x.prd == p)) [
    | inl here ↦ rw here (
      h.0,
      ground (arith, past-set f p t nexts at),
      h.2,
      Sets-above (suc f) xs (ground arith) h.3,
    )
    | inr later ↦ rw later (
      h.0,
      ground (arith, past-set f p t nexts at),
      rw (length-export_set p xs) h.2,
      Sets-exported (suc f) xs (ground arith) h.3,
    )
  ]

-- A thread that has imported the set of its next period, which is completed, moves on by one period:
-- the call does not fail, the queue stays valid, and it holds the same periods.
pub complete_exportation-IsQueue :
    (f t p : ℕ) (q : PrdClausesQueue)
    → IsQueue f q
    → get_elem? q.next_period t ≡ some p
    → suc p < f + length q.queue
    → (q' : PrdClausesQueue) × (complete_exportation q t p ≡ ok q')
      × IsQueue f q'
      × (q'.next_period ≡ set q.next_period t (p + 1))
      × (q'.queue ≡ export_set p q.queue)
unfolding complete_exportation nth
complete_exportation-IsQueue f t p q v at done = (
  record q { next_period = set q.next_period t (p + 1); queue = export_set p q.queue },
  rw (at, nth) (ground arith),
  record {
    sets =
        Sets-exported q.next_period t p at f q.queue (All-get _ q.next_period t p v.kept at) v.sets;
    some_set = omega (arith, v.some_set, length-export_set p q.queue);
    threads = length-set q.next_period t (p + 1) ∙ v.threads;
    kept =
        All-set _ q.next_period t (p + 1) v.kept
          (omega (arith, All-get _ q.next_period t p v.kept at));
    behind =
        rw (length-export_set p q.queue) (All-set _ q.next_period t (p + 1) v.behind (omega arith));
    fits = omega (arith, v.fits, length-export_set p q.queue);
  },
  refl,
  refl,
)
