-- ===== src/Solver/Period.antt =====
-- The period check of `AbstDetSeqSolver` and the methods that it calls, in their order.
--
-- `check_period` runs on shared state that does not change under it, so `waits` is its outcome when a
-- set that is due is not completed yet; in the program other threads go on meanwhile.
pub mod Schedule
mod Tests
use dps_pos.Base.{
  ℕ, zero, suc, ◌+◌, ◌-◌, ◌/◌, ◌^◌, List, [], ◌∷◌, Bool, true, false, ◌&&◌, ◌||◌, not, length, set,
  u32, u64, sub_u32, sub_u64, ltb, leb, ◌==◌, if◌then◌else◌,
}
use dps_pos.Base.Result.{Result}
use dps_pos.Period.Buffer
use dps_pos.Period.Manager
use dps_pos.Period.Queue
use dps_pos.Parallel.Sharer.{Sharer}
use dps_pos.Parallel.Sharer
use dps_pos.Solver.{Doubles, BaseSolver, Solver}
use dps_pos.Solver.Import.{Outcome, done, waits, fault, lift, ◌>>=◌, import_clauses}

module _ {Double State : Type 0} where
  unfoldable pub can_move_to_next_period : Solver Double State → Bool
  can_move_to_next_period v = leb v.mem_acc_lim v.num_mem_accesses

  unfoldable pub move_to_next_period : Solver Double State → Result (Solver Double State)
  unfolding can_move_to_next_period
  move_to_next_period v =
      if can_move_to_next_period v
      then Result.ok (record v {
        num_mem_accesses = sub_u64 v.num_mem_accesses v.mem_acc_lim;
        periods = u64 (v.periods + 1);
        mem_acc_lim = v.next_mem_acc_lim;
      })
      else Result.fault

  -- The periods since the last forced application are enough.
  unfoldable pub is_due : Solver Double State → Bool
  is_due v = leb (u64 (v.last_fapp_period + v.fapp_periods)) v.periods

  unfoldable pub should_apply_imported_clauses :
      Solver Double State → ℕ → Solver Double State × Bool
  unfolding is_due
  should_apply_imported_clauses v num_threads =
      if ltb 0 (length v.imported_unit_clauses) && is_due v
      then (record v { last_fapp_period = v.periods }, true)
      else if ltb 0 v.fapp_clauses
          && leb v.fapp_clauses (length v.imported_clauses / num_threads)
          && is_due v
      then (record v { last_fapp_period = v.periods }, true)
      else (v, false)

module _ (D : Doubles) (B : BaseSolver) where
  open D use {Double, of_uint, to_uint, one, add, sub, mul, div, lt}
  open B use {State, get_num_conflicts, inc_exp_clause_gen, dec_exp_clause_gen}

  -- The growth of the backlog, a 32-bit difference read as a signed number, is above zero.
  grows : ℕ → ℕ → Bool
  grows curr prev = ltb 0 (sub_u32 curr prev) && ltb (sub_u32 curr prev) (2 ^ 31)

  -- The control of the export rate, after an export.
  unfoldable pub control_exports : Solver Double State → Solver Double State
  unfolding grows
  control_exports v =
      let confs = get_num_conflicts v.base in
      let curr = u32 v.exp_clauses_buf.num_literals in
      let limit = mul (of_uint v.exp_lits_lim) v.exp_lits_margin in
      if confs == v.prev_exp_confs then v else record v {
        prev_exp_confs = confs;
        prev_exp_lits = curr;
        base =
            if lt (of_uint curr) limit && not (grows curr v.prev_exp_lits)
            then inc_exp_clause_gen v.base
            else if lt limit (of_uint curr) && grows curr v.prev_exp_lits
            then dec_exp_clause_gen v.base
            else v.base;
      }

  unfoldable pub export_selected_clauses :
      Solver Double State → Sharer → Outcome (Solver Double State × Sharer)
  unfolding control_exports
  export_selected_clauses v s = do
    q ← lift (Manager.get s.pcqm v.thn)
    p ← lift (Queue.last q.queue)
    (b, p', n) ← lift (Buffer.export_to v.exp_clauses_buf p v.exp_lits_lim)
    let v' : Solver Double State = record v {
      exp_clauses_buf = b;
      num_exported_clauses = u64 (v.num_exported_clauses + n);
    }
    let s' : Sharer = record s {
      pcqm = set s.pcqm v.thn (record q { queue = Queue.set_last q.queue p' });
    }
    done (if v.exp_lits_lim == 0 then v' else control_exports v', s')

  -- The number of memory accesses that generate `base` conflicts, smoothed.
  unfoldable pub smooth : Solver Double State → ℕ → ℕ → ℕ → ℕ
  smooth v base sum confs =
      let alpha = v.options.adpt_prd_smth in
      let new_val = mul (div (of_uint sum) (of_uint confs)) (of_uint base) in
      to_uint (add (mul alpha new_val) (mul (sub one alpha) (of_uint v.ema_mem_accs)))

  unfoldable pub get_new_period_length : Solver Double State → Solver Double State × ℕ
  unfolding smooth
  get_new_period_length v =
      let base = v.options.adpt_prd in
      let sum = u64 (v.sum_mem_accs + v.mem_acc_lim) in
      let confs = get_num_conflicts v.base in
      let ema = smooth v base sum (sub_u64 confs v.ema_prev_confs) in
      if base == 0
      then (v, v.mem_acc_lim)
      else if ltb (u64 (v.ema_prev_confs + base)) confs
      then (record v { sum_mem_accs = 0; ema_mem_accs = ema; ema_prev_confs = confs }, ema)
      else (record v { sum_mem_accs = sum }, v.ema_mem_accs)

  -- A report of the system: the memory in use and the time since the start.
  unfoldable pub over_limit : Solver Double State → Double → Double → Bool
  over_limit v used now =
      (lt (of_uint 0) v.mem_use_lim && lt v.mem_use_lim used)
      || (lt (of_uint 0) v.real_time_lim && lt (add v.start_real_time v.real_time_lim) now)

  unfoldable pub should_be_terminated : Solver Double State → Sharer → Double → Double → Bool
  unfolding over_limit
  should_be_terminated v s used now =
      Sharer.should_be_terminated s v.periods || over_limit v used now

  -- False when the solver has to stop.
  unfoldable pub check_period :
      Solver Double State → Sharer → Double → Double → Outcome (Solver Double State × Sharer × Bool)
  unfolding export_selected_clauses get_new_period_length should_be_terminated
  check_period v s used now =
      if can_move_to_next_period v
      then (do
        (v1, s1) ← export_selected_clauses v s
        let l : Solver Double State × ℕ = get_new_period_length v1
        s2 ← lift (Sharer.complete_curr_period s1 v.thn l.1)
        (v3, s3, imported) ← import_clauses l.0 s2
        v4 ← lift (move_to_next_period v3)
        done (v4, s3, not (should_be_terminated v4 s3 used now)))
      else done (v, s, true)
