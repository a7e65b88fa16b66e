-- ===== src/System.antt =====
-- All threads together, in deterministic mode and without the adaptive period length: the part of
-- `AbstDetSeqSolver::checkPeriod` that touches shared state, interleaved in any order.
--
-- What a thread does between two accesses to shared state is a function of its own state: `work` runs
-- the base solver through a period and gives what it exports, with the length that it proposes;
-- `held` gives the clauses that the thread has imported and not applied; `absorb` is the rest of the
-- period check. How threads stop is in the child Launch.
pub mod Ring
pub mod Launch
pub mod Rounds
pub mod Publish
pub mod Invariant
pub mod Update
pub mod Steps
pub mod Determinism
pub mod Progress
mod Tests
use dps_pos.Base.{
  ℕ, zero, suc, ◌+◌, ◌-◌, ◌%◌, ◌^◌, ◌<◌, ◌≤◌, ◌≡◌, ◌⊎◌, List, [], ◌∷◌, set, length, false, ◌++◌,
  ◌==◌, if◌then◌else◌,
}
use dps_pos.Base.Result.{Result, ok, fault, ◌>>=◌}
use dps_pos.Period.Clause.{Clause}
use dps_pos.Period.PrdClauses
use dps_pos.Period.PrdClauses.{PrdClauses}
use dps_pos.Period.Queue.{PrdClausesQueue, last, set_last, complete_addition}
use dps_pos.Period.Queue
use dps_pos.Period.Manager
use dps_pos.Solver.Import.{Outcome, done, Imports, import_queue}
use dps_pos.Solver.Import.Window.{Parcel}

abbrev pub update {ℓ} : {A : Type ℓ} → (ℕ → A) → ℕ → A → ℕ → A
update f i a j = if i == j then a else f j

-- A thread works on its period, or imports from the thread at distance `i`.
pub data Phase : Type 0 where
  working : Phase
  importing : (i : ℕ) (m : Imports) → Phase

pub record Thread (L : Type 0) : Type 0 where
  pub local : L
  pub period : ℕ
  pub phase : Phase

pub record System (L : Type 0) : Type 0 where
  pub queues : List PrdClausesQueue
  pub threads : ℕ → Thread L

-- The clauses of `exportSelectedClauses` go to the set being filled, one by one.
unfoldable pub add_clauses : List Clause → PrdClauses → Result PrdClauses
add_clauses [] p = ok p
add_clauses (c ∷ cs) p = PrdClauses.add_clause p c >>= add_clauses cs

-- The end of a period: the set being filled gets its clauses and is completed.
unfoldable pub publish : PrdClausesQueue → Parcel → Result PrdClausesQueue
publish q e = last q.queue >>= λ p. add_clauses e.clauses p >>= λ p'.
    complete_addition (record q { queue = set_last q.queue p' }) e.prd_len

-- A framework run: the number of threads, the margin, and the threads' own computations.
pub record Setup (L : Type 0) : Type 0 where
  pub num_threads : ℕ
  pub margin : ℕ
  pub first : ℕ → L
  pub work : L → L × Parcel
  pub held : L → Imports
  pub absorb : L → Imports → L

module _ {L : Type 0} (c : Setup L) where
  open c use {num_threads, margin, first, work, held, absorb}

  unfoldable pub init : System L
  init = record {
    queues = Manager.set_num_threads num_threads;
    threads = λ t. record { local = first t; period = 0; phase = working };
  }

  -- One access of thread `t`. Period numbers are 64-bit words, and a run is shorter than that.
  pub data Step (s : System L) : System L → Type 0 where
    finish :
        (t : ℕ) {q q' : PrdClausesQueue}
        → t < num_threads
        → (s.threads t).phase ≡ working
        → (s.threads t).period + 2 < 2 ^ 64
        → Manager.get s.queues t ≡ ok q
        → publish q (work (s.threads t).local).1 ≡ ok q'
        → Step s (record {
          queues = set s.queues t q';
          threads = update s.threads t (record {
            local = (work (s.threads t).local).0;
            period = (s.threads t).period;
            phase = importing 1 (held (work (s.threads t).local).0);
          });
        })
    take :
        (t i : ℕ) {m m' : Imports} {q q' : PrdClausesQueue}
        → t < num_threads
        → (s.threads t).phase ≡ importing i m
        → i < num_threads
        → margin ≤ (s.threads t).period
        → Manager.get s.queues ((t + i) % num_threads) ≡ ok q
        → import_queue (suc (length q.queue)) false t ((s.threads t).period - margin) q m
          ≡ done (q', m')
        → Step s (record {
          queues = set s.queues ((t + i) % num_threads) q';
          threads = update s.threads t (record {
            local = (s.threads t).local;
            period = (s.threads t).period;
            phase = importing (suc i) m';
          });
        })
    move :
        (t i : ℕ) {m : Imports}
        → t < num_threads
        → (s.threads t).phase ≡ importing i m
        → (num_threads ≤ i) ⊎ ((s.threads t).period < margin)
        → Step s (record {
          queues = s.queues;
          threads = update s.threads t (record {
            local = absorb (s.threads t).local m;
            period = (s.threads t).period + 1;
            phase = working;
          });
        })

  pub data Reach : System L → Type 0 where
    start : Reach init
    later : {s s' : System L} → Reach s → Step s s' → Reach s'
