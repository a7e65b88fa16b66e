-- ===== src/Solver/KissatWrapper/Setup.antt =====
-- DPS-src/solvers/KissatWrapper.cpp: how a Kissat solver is set up, by the number of its thread.
pub mod Gcd
pub mod Share
use Prim.Native.String.{String}
use dps_pos.Base.{
  ℕ, zero, suc, ◌+◌, ◌-◌, ◌/◌, ◌%◌, ◌^◌, List, [], ◌∷◌, ◌++◌, Bool, true, false, not, Option, none,
  some, length, get_elem?, ltb, ◌==◌, if◌then◌else◌,
}
use dps_pos.Base.Int.{ℤ, pos, negsuc, abs}
use dps_pos.Base.Result.{Result, ok, fault, ◌>>=◌}
use dps_pos.Parallel.Options.{Options}

pub record PaKisParam : Type 0 where
  pub tier1 : ℕ
  pub chrono : ℕ
  pub stable : ℕ
  pub walkinitially : ℕ
  pub target : ℕ
  pub phase : ℕ

abbrev pakis : ℕ → ℕ → ℕ → ℕ → ℕ → ℕ → PaKisParam
pakis tier1 chrono stable walkinitially target phase = record {
  tier1 = tier1;
  chrono = chrono;
  stable = stable;
  walkinitially = walkinitially;
  target = target;
  phase = phase;
}

unfoldable pub pakis_params : List PaKisParam
pakis_params =
    pakis 2 1 1 0 1 1
    ∷ pakis 2 1 1 0 2 1
    ∷ pakis 2 1 0 0 1 1
    ∷ pakis 2 0 1 0 1 1
    ∷ pakis 2 0 1 0 1 0
    ∷ pakis 2 1 1 0 1 0
    ∷ pakis 2 0 2 0 1 1
    ∷ pakis 2 1 1 0 0 1
    ∷ pakis 2 0 1 0 0 0
    ∷ pakis 2 1 1 0 0 0
    ∷ pakis 2 1 1 1 1 1
    ∷ pakis 2 0 1 0 2 1
    ∷ pakis 2 0 1 0 2 0
    ∷ pakis 3 0 1 0 2 0
    ∷ pakis 3 0 1 0 2 1
    ∷ pakis 2 1 1 0 2 0
    ∷ pakis 2 0 2 0 2 1
    ∷ pakis 2 1 1 0 0 1
    ∷ pakis 2 0 1 0 0 0
    ∷ pakis 2 1 1 0 0 0
    ∷ pakis 3 1 1 0 0 1
    ∷ pakis 3 1 1 0 2 1
    ∷ pakis 2 1 1 1 2 1
    ∷ pakis 2 0 0 0 1 1
    ∷ []

-- `int num = n;` for a `uint32_t`: from 2 ^ 31 on the number is negative.
abbrev pub negated : ℕ → ℤ
negated zero = pos 0
negated (suc n) = negsuc n

abbrev pub int_of : ℕ → ℤ
int_of n = if ltb n (2 ^ 31) then pos n else negated (2 ^ 32 - n)

-- `/`, `%` and `<` on `int`: a quotient is rounded towards 0, and a remainder has the sign of what is
-- divided.
abbrev pub quot : ℤ → ℤ → ℤ
quot (pos a) (pos b) = pos (a / b)
quot (pos a) (negsuc b) = negated (a / suc b)
quot (negsuc a) (pos b) = negated (suc a / b)
quot (negsuc a) (negsuc b) = pos (suc a / suc b)

abbrev pub rem : ℤ → ℤ → ℤ
rem (pos a) b = pos (a % abs b)
rem (negsuc a) b = negated (suc a % abs b)

abbrev pub less : ℤ → ℤ → Bool
less (pos a) (pos b) = ltb a b
less (pos a) (negsuc b) = false
less (negsuc a) (pos b) = true
less (negsuc a) (negsuc b) = ltb b a

-- A remainder by zero, which does not come up, and too little fuel give no result.
unfoldable pub gcd : ℕ → ℤ → ℤ → Result ℤ
gcd zero a b = fault
gcd (suc fuel) a b =
    let rest = gcd fuel b (rem a b) in
    if abs b == 0 then fault else if abs (rem a b) == 0 then ok b else rest

-- The calls that the constructor makes of its new solver.
pub data Call : Type 0 where
  set_wrapper : ℕ → Call
  set_option : String → ℕ → Call
  rand_pick_until_1st_conf : Bool → Call

unfoldable pub seed_calls : ℕ → List Call
seed_calls id =
    if not (id == 0) then set_option "seed" id ∷ rand_pick_until_1st_conf true ∷ [] else []

unfoldable pub stable_calls : ℕ → ℕ → List Call
stable_calls ks_stable id =
    if ltb ks_stable 4
    then set_option "stable" ks_stable ∷ []
    else set_option "stable" ((id + 1) % 3) ∷ []

-- The last step of `gcd(num, 100)` is at most its 101st.
unfoldable pub eliminate_calls : ℕ → ℕ → Result (List Call)
eliminate_calls ks_elim id =
    if not (ks_elim == 100)
    then (gcd 101 (int_of ks_elim) (pos 100) >>= λ div.
        let num = quot (int_of ks_elim) div in
        let dem = quot (pos 100) div in
        ok (set_option "eliminate" (if less (rem (pos id) dem) num then 1 else 0) ∷ []))
    else ok []

-- An access out of bounds has no result.
unfoldable pub param_calls : Option PaKisParam → Result (List Call)
param_calls none = fault
param_calls (some p) = ok (
    set_option "tier1" p.tier1
    ∷ set_option "chrono" p.chrono
    ∷ set_option "stable" p.stable
    ∷ set_option "walkinitially" p.walkinitially
    ∷ set_option "target" p.target
    ∷ set_option "phase" p.phase
    ∷ [])

unfoldable pub pakis_calls : Bool → ℕ → Result (List Call)
pakis_calls ks_pakis id =
    if ks_pakis then param_calls (get_elem? pakis_params (id % length pakis_params)) else ok []

unfoldable pub set_up : {Double : Type 0} → Options Double → ℕ → Result (List Call)
set_up o id = do
  e ← eliminate_calls o.ks_elim id
  p ← pakis_calls o.ks_pakis id
  ok (
      set_wrapper id
      ∷ set_option "quiet" 1
      ∷ (seed_calls id ++ (stable_calls o.ks_stable id ++ (e ++ p))))
