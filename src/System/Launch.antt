-- ===== src/System/Launch.antt =====
-- All threads from their launch to the end of the last: the period checks of `System`, the request to
-- stop that follows each of them in `checkPeriod`, and the end of each wrapper's `solve`, which
-- reports the result and completes the thread's last period. Deterministic mode, no adaptive period
-- length, no limit on time or memory, interleaved in any order.
--
-- A thread that was told to stop does not always stop without an answer: Kissat's propagation and
-- analysis go on after a period check that asks them to stop, and the search may still come to an
-- answer before it looks at the request. The other solvers read the request at every restart too; a
-- read that does not ask the thread to stop changes nothing and is no step.
pub mod Shadow
pub mod Answer
pub mod Invariant
pub mod Close
pub mod Update
pub mod Steps
pub mod Reports
pub mod Late
pub mod LastPeriod
pub mod Plain
pub mod Outcome
pub mod Progress
pub mod Measure
pub mod Ending
pub mod Alone
pub mod Solvers
mod Tests
use dps_pos.Base.{
  ℕ, suc, ◌+◌, ◌-◌, ◌%◌, ◌<◌, ◌≤◌, ◌≡◌, ◌⊎◌, Bool, Option, none, some, set, length, false, true,
  if◌then◌else◌,
}
use dps_pos.Base.Int.{pos}
use dps_pos.Base.Result.{ok}
use dps_pos.Period.Queue.{PrdClausesQueue}
use dps_pos.Period.Manager
use dps_pos.Parallel.Sharer.{Sharer, SatResult, unknown, i_finished, should_be_terminated}
use dps_pos.Parallel.Sharer
use dps_pos.Solver.Import.{Imports, done, import_queue}
use dps_pos.System.{Setup, update, publish}

-- What the threads run: `answer` is the answer that the search of a period ends with, if it does,
-- `late_answer` the one that a search still comes to after it was told to stop, if it may come to
-- one, and `last_len` the length that the thread then proposes for its last period.
pub record Program (L : Type 0) : Type 0 where
  pub setup : Setup L
  pub answer : L → Option SatResult
  pub late_answer : L → Option SatResult
  pub last_len : L → ℕ

-- A thread searches in its period; imports from the thread at distance `i`; is to check whether it has
-- to stop; has been told to stop; has reported its result; or has ended.
pub data Stage : Type 0 where
  searching : Stage
  taking : (i : ℕ) (m : Imports) → Stage
  checking : Stage
  told : Stage
  reported : Stage
  stopped : Stage

pub record Worker (L : Type 0) : Type 0 where
  pub local : L
  pub period : ℕ
  pub stage : Stage

pub record State (L : Type 0) : Type 0 where
  pub sharer : Sharer
  pub workers : ℕ → Worker L

module _ {L : Type 0} (c : Program L) where
  open c use {setup, answer, late_answer, last_len}
  open setup use {num_threads, margin, first, work, held, absorb}

  unfoldable pub launch : ℕ → State L
  launch mem_acc_lim = record {
    sharer = Sharer.init num_threads margin mem_acc_lim false;
    workers = λ t. record { local = first t; period = 0; stage = searching };
  }

  -- One access of thread `t`.
  pub data Step (s : State L) : State L → Type 0 where
    finish :
        (t : ℕ) {q q' : PrdClausesQueue}
        → t < num_threads
        → (s.workers t).stage ≡ searching
        → answer (s.workers t).local ≡ none
        → Manager.get s.sharer.pcqm t ≡ ok q
        → publish q (work (s.workers t).local).1 ≡ ok q'
        → Step s (record {
          sharer = record (s.sharer) { pcqm = set s.sharer.pcqm t q' };
          workers = update s.workers t (record {
            local = (work (s.workers t).local).0;
            period = (s.workers t).period;
            stage = taking 1 (held (work (s.workers t).local).0);
          });
        })
    take :
        (t i : ℕ) {m m' : Imports} {q q' : PrdClausesQueue}
        → t < num_threads
        → (s.workers t).stage ≡ taking i m
        → i < num_threads
        → margin ≤ (s.workers t).period
        → Manager.get s.sharer.pcqm ((t + i) % num_threads) ≡ ok q
        → import_queue (suc (length q.queue)) false t ((s.workers t).period - margin) q m
          ≡ done (q', m')
        → Step s (record {
          sharer = record (s.sharer) { pcqm = set s.sharer.pcqm ((t + i) % num_threads) q' };
          workers = update s.workers t (record {
            local = (s.workers t).local;
            period = (s.workers t).period;
            stage = taking (suc i) m';
          });
        })
    move :
        (t i : ℕ) {m : Imports}
        → t < num_threads
        → (s.workers t).stage ≡ taking i m
        → (num_threads ≤ i) ⊎ ((s.workers t).period < margin)
        → Step s (record {
          sharer = s.sharer;
          workers = update s.workers t (record {
            local = absorb (s.workers t).local m;
            period = (s.workers t).period + 1;
            stage = checking;
          });
        })
    check :
        (t : ℕ)
        → t < num_threads
        → (s.workers t).stage ≡ checking
        → Step s (record {
          sharer = s.sharer;
          workers = update s.workers t (record {
            local = (s.workers t).local;
            period = (s.workers t).period;
            stage = if should_be_terminated s.sharer (s.workers t).period then told else searching;
          });
        })
    restart :
        (t : ℕ)
        → t < num_threads
        → (s.workers t).stage ≡ searching
        → should_be_terminated s.sharer (s.workers t).period ≡ true
        → Step s (record {
          sharer = s.sharer;
          workers =
              update s.workers t (record {
                local = (s.workers t).local;
                period = (s.workers t).period;
                stage = told;
              });
        })
    solve :
        (t : ℕ) {status : SatResult} {r : Sharer × Bool}
        → t < num_threads
        → (s.workers t).stage ≡ searching
        → answer (s.workers t).local ≡ some status
        → i_finished s.sharer status (s.workers t).period (pos t) ≡ ok r
        → Step s (record {
          sharer = r.0;
          workers = update s.workers t (record {
            local = (s.workers t).local;
            period = (s.workers t).period;
            stage = reported;
          });
        })
    give_up :
        (t : ℕ) {r : Sharer × Bool}
        → t < num_threads
        → (s.workers t).stage ≡ told
        → i_finished s.sharer unknown (s.workers t).period (pos t) ≡ ok r
        → Step s (record {
          sharer = r.0;
          workers = update s.workers t (record {
            local = (s.workers t).local;
            period = (s.workers t).period;
            stage = reported;
          });
        })
    answer_late :
        (t : ℕ) {status : SatResult} {r : Sharer × Bool}
        → t < num_threads
        → (s.workers t).stage ≡ told
        → late_answer (s.workers t).local ≡ some status
        → i_finished s.sharer status (s.workers t).period (pos t) ≡ ok r
        → Step s (record {
          sharer = r.0;
          workers = update s.workers t (record {
            local = (s.workers t).local;
            period = (s.workers t).period;
            stage = reported;
          });
        })
    close :
        (t : ℕ) {x : Sharer}
        → t < num_threads
        → (s.workers t).stage ≡ reported
        → Sharer.complete_curr_period s.sharer t (last_len (s.workers t).local) ≡ ok x
        → Step s (record {
          sharer = x;
          workers = update s.workers t (record {
            local = (s.workers t).local;
            period = (s.workers t).period;
            stage = stopped;
          });
        })

  -- The states that `k` steps lead to.
  pub data Reach (mem_acc_lim : ℕ) : ℕ → State L → Type 0 where
    start : Reach mem_acc_lim 0 (launch mem_acc_lim)
    later :
        {k : ℕ} {s s' : State L} → Reach mem_acc_lim k s → Step s s' → Reach mem_acc_lim (suc k) s'
