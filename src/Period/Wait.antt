-- ===== src/Period/Wait.antt =====
-- The meeting of a thread that fills a set with the threads that wait for it: completeAddition and
-- waitAdditionCompleted of DPS-src/period/PrdClauses.cpp, in steps.
--
-- A step is what happens between two points where the lock `lock_completed` is free. A thread that
-- finds the set open gives the lock back and sleeps in one step, as `pthread_cond_wait` does. POSIX
-- lets a sleeping thread wake up without a signal; `spurious` says whether that happens.
pub mod Order
mod Tests
use dps_pos.Base.{ℕ, ◌≡◌, Bool, true, false, ◌==◌, if◌then◌else◌}
use dps_pos.Base.Result.{ok}
use dps_pos.Period.Clause.{Clause}
use dps_pos.Period.PrdClauses.{PrdClauses, add_clause, complete_addition}

-- Before the test, in `pthread_cond_wait`, awake there and before the end, after the return.
pub data Waiter : Type 0 where
  entering asleep woken returned : Waiter

pub record Meeting : Type 0 where
  pub prd_clauses : PrdClauses
  pub waiters : ℕ → Waiter

-- `if (!completed) pthread_cond_wait(...)`
unfoldable pub test_completed : Bool → Waiter
test_completed true = returned
test_completed false = asleep

-- `pthread_cond_broadcast`
unfoldable pub broadcast : Waiter → Waiter
broadcast asleep = woken
broadcast entering = entering
broadcast woken = woken
broadcast returned = returned

abbrev pub becomes : (ℕ → Waiter) → ℕ → Waiter → ℕ → Waiter
becomes waiters i w j = if i == j then w else waiters j

pub data Step (spurious : Bool) (s : Meeting) : Meeting → Type 0 where
  add :
      {p : PrdClauses} (c : Clause)
      → add_clause s.prd_clauses c ≡ ok p
      → Step spurious s (record { prd_clauses = p; waiters = s.waiters })
  complete :
      {p : PrdClauses} (prd_len : ℕ)
      → complete_addition s.prd_clauses prd_len ≡ ok p
      → Step spurious s (record { prd_clauses = p; waiters = λ i. broadcast (s.waiters i) })
  test :
      (i : ℕ)
      → s.waiters i ≡ entering
      → Step spurious s (record {
        prd_clauses = s.prd_clauses;
        waiters = becomes s.waiters i (test_completed s.prd_clauses.completed);
      })
  wake :
      (i : ℕ)
      → spurious ≡ true
      → s.waiters i ≡ asleep
      → Step spurious s
          (record { prd_clauses = s.prd_clauses; waiters = becomes s.waiters i woken })
  return :
      (i : ℕ)
      → s.waiters i ≡ woken
      → Step spurious s
          (record { prd_clauses = s.prd_clauses; waiters = becomes s.waiters i returned })

pub data Reach (spurious : Bool) (p : PrdClauses) : Meeting → Type 0 where
  start : Reach spurious p (record { prd_clauses = p; waiters = λ i. entering })
  later : {s s' : Meeting} → Reach spurious p s → Step spurious s s' → Reach spurious p s'
