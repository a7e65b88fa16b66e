-- ===== src/Parallel/Sharer.antt =====
-- DPS-src/parallel/Sharer.h and Sharer.cpp: what all solver threads share, and which thread's answer
-- is the answer of the whole run. A method runs under `mutexJobFinished` or is one atomic access, so
-- it is one step.
pub mod Winner
pub mod Verdict
mod Tests
use dps_pos.Base.{
  ℕ, zero, suc, ◌+◌, ◌-◌, List, set, Bool, true, false, ◌&&◌, ◌||◌, not, u64, ltb, ◌==◌,
  if◌then◌else◌,
}
use dps_pos.Base.Int.{ℤ, pos, negsuc, ltb_ℤ}
use dps_pos.Base.Result.{Result, ok, fault, ◌>>=◌}
use dps_pos.Period.Queue.{PrdClausesQueue}
use dps_pos.Period.Queue
use dps_pos.Period.Manager

pub data SatResult : Type 0 where
  sat unsat unknown : SatResult

abbrev pub same : SatResult → SatResult → Bool
same sat sat = true
same unsat unsat = true
same unknown unknown = true
same _ _ = false

pub record Sharer : Type 0 where
  pub num_threads : ℕ
  pub margin : ℕ
  pub mem_acc_lim : ℕ
  pub non_det : Bool
  pub num_live_threads : ℕ
  pub lanched : Bool
  pub sol_found : Bool
  pub final_result : SatResult
  pub winner_period : ℕ
  pub winner_id : ℤ
  pub pcqm : List PrdClausesQueue

unfoldable pub init : ℕ → ℕ → ℕ → Bool → Sharer
init num_threads margin mem_acc_lim non_det = record {
  num_threads = num_threads;
  margin = margin;
  mem_acc_lim = mem_acc_lim;
  non_det = non_det;
  num_live_threads = 0;
  lanched = false;
  sol_found = false;
  final_result = unknown;
  winner_period = 0;
  winner_id = negsuc 0;
  pcqm = Manager.set_num_threads num_threads;
}

unfoldable pub inc_num_live_threads : Sharer → Sharer
inc_num_live_threads s = record s { num_live_threads = s.num_live_threads + 1; lanched = true }

unfoldable pub dec_num_live_threads : Sharer → Result Sharer
dec_num_live_threads s =
    if ltb 0 s.num_live_threads
    then ok (record s { num_live_threads = s.num_live_threads - 1 })
    else fault

-- -1 before the first thread has been launched.
unfoldable pub get_num_live_solvers : Sharer → ℤ
get_num_live_solvers s = if s.lanched then pos s.num_live_threads else negsuc 0

unfoldable pub complete_curr_period : Sharer → ℕ → ℕ → Result Sharer
complete_curr_period s thn prd_len = do
  q ← Manager.get s.pcqm thn
  q' ← Queue.complete_addition q prd_len
  ok (record s { pcqm = set s.pcqm thn q' })

unfoldable pub should_be_terminated : Sharer → ℕ → Bool
should_be_terminated s prd =
    s.sol_found
    && (same s.final_result unknown || ltb (u64 (s.winner_period + s.margin)) prd || s.non_det)

-- The test under which a report replaces the winner.
unfoldable pub is_better : Sharer → SatResult → ℕ → ℤ → Bool
is_better s status prd thn =
    not s.sol_found
    || (not (same status unknown) && ltb prd s.winner_period)
    || (not (same status unknown) && (prd == s.winner_period) && ltb_ℤ thn s.winner_id)

-- `IFinished`: the report of a thread that has stopped, and whether it is the winner now. The guard
-- is the method's `assert`.
unfoldable pub i_finished : Sharer → SatResult → ℕ → ℤ → Result (Sharer × Bool)
unfolding is_better
i_finished s status prd thn =
    if same status unknown || same s.final_result unknown || same s.final_result status
    then (if is_better s status prd thn
        then ok (
          record s {
            sol_found = true;
            winner_id = thn;
            winner_period = prd;
            final_result = status;
          },
          true,
        )
        else ok (s, false))
    else fault
