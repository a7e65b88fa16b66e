-- ===== src/Solver/Factory.antt =====
-- DPS-src/solvers/SolverFactory.cpp, and the constructors of the four wrappers.
use Prim.Native.String.{String}
use text.Mathlib.Text
use dps_pos.Base.{ℕ, zero, suc, ◌+◌, List, [], ◌∷◌, if◌then◌else◌}
use dps_pos.Base.Result.{Result, ok, fault}
use dps_pos.Parallel.Options.{Options, Setup, done, throws, aborts, ◌>>=◌}
use dps_pos.Parallel.Sharer.{Sharer}
use dps_pos.Solver.{Solver}
use dps_pos.Solver.Start.{new_solver}
use dps_pos.Solver.KissatWrapper.Setup.{Call, set_up}
use dps_pos.Simp.MiniSat
use dps_pos.Simp.Glucose
use dps_pos.Simp.MapleComsps

-- What a wrapper's constructor tells its new solver.
pub data Wrapper : Type 0 where
  minisat : MiniSat.Diversity → Wrapper
  glucose : Glucose.Diversity → Wrapper
  mcomsps : MapleComsps.Diversity → Wrapper
  kissat : List Call → Wrapper

abbrev pub lift : {A : Type 0} → Result A → Setup A
lift (ok a) = done a
lift fault = aborts

-- The wrapper for a name.
unfoldable pub choose : {Double : Type 0} → String → ℕ → Options Double → Setup Wrapper
choose name id o =
    if Text.◌==◌ name "minisat"
    then done (minisat (MiniSat.diversify id))
    else if Text.◌==◌ name "glucose"
    then done (glucose (Glucose.diversify id))
    else if Text.◌==◌ name "mcomsps"
    then done (mcomsps (MapleComsps.diversify id))
    else if Text.◌==◌ name "kissat"
    then (lift (set_up o id) >>= λ calls. done (kissat calls))
    else throws

-- `base` is the state of the new solver of a library. `counter` is `currentIdSolver`, which is returned
-- with the solver.
module _ {Double State : Type 0} (base : Wrapper → State) (now : Double) where
  unfoldable pub create_sat_solver :
      String → Sharer → Options Double → ℕ → Setup (ℕ × Solver Double State)
  create_sat_solver name s o counter = do
    w ← choose name counter o
    v ← lift (new_solver s o (base w) counter now)
    done (counter + 1, v)

  unfoldable pub create_sat_solvers :
      ℕ → Sharer → Options Double → ℕ → Setup (ℕ × List (Solver Double State))
  create_sat_solvers zero s o counter = done (counter, [])
  create_sat_solvers (suc num_solvers) s o counter = do
    (c1, v) ← create_sat_solver o.base_solver s o counter
    (c2, vs) ← create_sat_solvers num_solvers s o c1
    done (c2, v ∷ vs)
