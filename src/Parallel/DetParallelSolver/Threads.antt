-- ===== src/Parallel/DetParallelSolver/Threads.antt =====
-- The threads that are made fit what they share.
use Prim.Native.String.{String}
use dps_pos.Base.{ℕ, ◌+◌, ◌≡◌, ◌<◌, ◌⊎◌, List, some, length, get_elem?}
use dps_pos.Period.Queue
use dps_pos.Period.Manager
use dps_pos.Parallel.Options.{Options, Setup, done}
use dps_pos.Parallel.Sharer
use dps_pos.Parallel.Sharer.{Sharer}
use dps_pos.Parallel.DetParallelSolver.{DetParallelSolver}
use dps_pos.Solver.{Solver}
use dps_pos.Solver.Factory.{Wrapper}
use dps_pos.Simp.MiniSat
use dps_pos.Simp.Glucose
use dps_pos.Simp.MapleComsps

abbrev pub Known : String → Type 0
Known name = (name ≡ "minisat") ⊎ ((name ≡ "glucose") ⊎ ((name ≡ "mcomsps") ⊎ (name ≡ "kissat")))

module _ {Double State : Type 0} (base : Wrapper → State) (now : Double) (o : Options Double) where
  -- The thread `id` has this number, the options, and the parameters of the schedule.
  pub record Fits (id : ℕ) (v : Solver Double State) : Type 0 where
    pub number : v.thn ≡ id
    pub settings : v.options ≡ o
    pub margin : v.margin ≡ o.margin
    pub length : v.mem_acc_lim ≡ o.mem_acc_lim
    pub at_start : v.periods ≡ 0

  abbrev Made : ℕ → ℕ → Setup (ℕ × List (Solver Double State)) → Type 0
  Made c n x =
      (vs : List (Solver Double State)) × (x ≡ done (c + n, vs))
      × (length vs ≡ n)
      × ((i : ℕ) → i < n → (v : Solver Double State) × (get_elem? vs i ≡ some v) × Fits (c + i) v)
