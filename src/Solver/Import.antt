-- ===== src/Solver/Import.antt =====
-- `AbstDetSeqSolver::importClauses`: a thread takes over the clauses that the other threads have
-- exported up to the period that lies `margin` periods back.
pub mod Window
use dps_pos.Base.{
  ℕ, zero, suc, ◌+◌, ◌-◌, ◌%◌, ◌/◌, List, [], ◌∷◌, ◌++◌, Bool, true, false, ◌&&◌, not, Option, none,
  some, length, set, u32, u64, ltb, ◌==◌, if◌then◌else◌,
}
use dps_pos.Base.Result.{Result}
use dps_pos.Period.Clause.{Clause}
use dps_pos.Period.PrdClauses.{PrdClauses}
use dps_pos.Period.Queue.{PrdClausesQueue}
use dps_pos.Period.Queue
use dps_pos.Period.Manager
use dps_pos.Parallel.Sharer.{Sharer}
use dps_pos.Parallel.Options.{Options}
use dps_pos.Solver.{Solver}

-- A call that takes clauses from other threads ends, waits for another thread, or fails.
pub data Outcome {ℓ} (A : Type ℓ) : Type ℓ where
  done : A → Outcome A
  waits : Outcome A
  fault : Outcome A

infixl 5 ◌>>=◌
abbrev pub ◌>>=◌ {ℓ κ} : {A : Type ℓ} {B : Type κ} → Outcome A → (A → Outcome B) → Outcome B
done a >>= f = f a
waits >>= f = waits
fault >>= f = fault

abbrev pub lift {ℓ} : {A : Type ℓ} → Result A → Outcome A
lift (Result.ok a) = done a
lift Result.fault = fault

-- The vectors of imported clauses, and `sum_prd_len_cand`.
pub record Imports : Type 0 where
  pub clauses : List Clause
  pub units : List Clause
  pub sum_prd_len_cand : ℕ

-- The loop over the clauses of one set.
unfoldable pub push_all : List Clause → Imports → Imports
push_all [] m = m
push_all (c ∷ cs) m = push_all cs (
    if ltb 1 (length c)
    then record m { clauses = m.clauses ++ (c ∷ []) }
    else record m { units = m.units ++ (c ∷ []) })

unfoldable pub take_set : PrdClauses → Imports → Imports
take_set p m =
    let m' = push_all p.clauses m in
    record m' { sum_prd_len_cand = u64 (m'.sum_prd_len_cand + p.prd_len) }

-- The `while` loop over one queue, on fuel. A set that is not completed ends the loop in
-- non-deterministic mode, and is waited for in deterministic mode.
unfoldable pub import_queue :
    ℕ → Bool → ℕ → ℕ → PrdClausesQueue → Imports → Outcome (PrdClausesQueue × Imports)
import_queue zero non_det thn period q m = fault
import_queue (suc fuel) non_det thn period q m =
    let rest =
      λ (q' : PrdClausesQueue) (m' : Imports). import_queue fuel non_det thn period q' m' in
    lift (Queue.get_next q thn period) >>= λ r. elim r [
      | none ↦ done (q, m)
      | some p ↦
          if p.completed
          then (lift (Queue.complete_exportation q thn p.prd) >>= λ q'. rest q' (take_set p m))
          else if non_det
          then done (q, m)
          else waits
    ]

-- The `for` loop over the other threads, `left` of them from distance `i` on. A queue holds one set
-- more than are completed, which bounds the rounds over it.
unfoldable pub import_targets : ℕ → ℕ → Bool → ℕ → ℕ → Sharer → Imports → Outcome (Sharer × Imports)
import_targets zero i non_det thn period s m = done (s, m)
import_targets (suc left) i non_det thn period s m =
    let rest =
      λ (s' : Sharer) (m' : Imports). import_targets left (suc i) non_det thn period s' m' in
    let target = u32 (thn + i) % s.num_threads in
    lift (Manager.get s.pcqm target) >>= λ q.
    import_queue (suc (length q.queue)) non_det thn period q m >>= λ r.
    let (q', m') = r in rest (record s { pcqm = set s.pcqm target q' }) m'

-- `next_mem_acc_lim` within the bounds of the adaptive strategy; a bound of 0 is none.
unfoldable pub clamp : ℕ → ℕ → ℕ → ℕ
clamp lb ub n =
    let m = if not (lb == 0) && ltb n lb then lb else n in
    if not (ub == 0) && ltb ub m then ub else m

module _ {Double State : Type 0} where
  -- The adaptive strategy: the mean of the lengths that all threads propose, this one included.
  unfoldable pub adapt : Solver Double State → Sharer → ℕ → Outcome (Solver Double State × Sharer)
  unfolding clamp
  adapt v s sum = lift (Manager.get s.pcqm v.thn) >>= λ q.
      lift (Queue.get q (v.periods - v.margin)) >>= λ p.
      lift (Queue.complete_exportation q v.thn p.prd) >>= λ q'. done (
        record v {
          next_mem_acc_lim =
              clamp v.options.adpt_prd_lb v.options.adpt_prd_ub
                (u64 (sum + p.prd_len) / s.num_threads);
        },
        record s { pcqm = set s.pcqm v.thn q' },
      )

  unfoldable pub import_clauses :
      Solver Double State → Sharer → Outcome (Solver Double State × Sharer × Bool)
  unfolding adapt
  import_clauses v s =
      if ltb v.periods v.margin
      then done (v, s, false)
      else (import_targets (s.num_threads - 1) 1 v.options.non_det v.thn (v.periods - v.margin) s
            (record {
              clauses = v.imported_clauses;
              units = v.imported_unit_clauses;
              sum_prd_len_cand = 0;
            })
          >>= λ r.
              let (s', m) = r in
              let v' : Solver Double State = record v {
                imported_clauses = m.clauses;
                imported_unit_clauses = m.units;
                next_mem_acc_lim = v.mem_acc_lim;
              } in
              if v.options.adpt_prd == 0
              then done (v', s', true)
              else (adapt v' s' m.sum_prd_len_cand >>= λ r'.
                  let (v'', s'') = r' in done (v'', s'', true)))
