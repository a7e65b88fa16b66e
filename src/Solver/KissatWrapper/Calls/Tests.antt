-- ===== src/Solver/KissatWrapper/Calls/Tests.antt =====
-- A small formula given to a solver that keeps it, and the claims on set-up and export.
use dps_pos.Base.{
  ℕ, ◌+◌, ◌-◌, ◌*◌, ◌/◌, ◌≡◌, ◌<◌, ◌≤◌, ◌⊎◌, refl, List, [], ◌∷◌, ◌++◌, Bool, true, false, none,
  some, leb, ltb, ◌==◌, if◌then◌else◌, arith,
}
use dps_pos.Base.Int.{ℤ, pos, negsuc, abs}
use dps_pos.Base.Result.{Result, ok, fault}
use dps_pos.Period.Clause.{Clause}
use dps_pos.Period.Buffer
use dps_pos.Parallel.Options.{Options, defaults}
use dps_pos.Sat.Instance.{Instance}
use dps_pos.Sat.Instance.Load.{IsInstance}
use dps_pos.Solver.{Doubles, Quantiles}
use dps_pos.Solver.Threshold.{get_lbd_upperbound}
use dps_pos.Solver.Kissat.{external_max_var}
use dps_pos.Solver.KissatWrapper.Setup.{Call, set_up}
use dps_pos.Solver.KissatWrapper.Setup.Share.{count, setting, set_up-count}
use dps_pos.Solver.KissatWrapper.Calls.{
  KissatWrapper, KissatInput, should_be_exported, load_formula, inc_exp_clause_gen,
  dec_exp_clause_gen,
}
use dps_pos.Solver.KissatWrapper.Calls.Threshold.{Exact, should_be_exported_lem}
use dps_pos.Solver.KissatWrapper.Calls.Fed.{FeedLaws, load_formula-fed}

-- Half of the threads, which is the default.
abbrev half : Options ℕ
half = defaults 0 1 1 3

set_up-count_example :
    (f : ℕ → Bool) × ((id : ℕ)
      → (calls : List Call) × (set_up half id ≡ ok calls)
        × (setting "eliminate" none calls ≡ some (if f id then 1 else 0)))
    × (count f 7 100 ≡ 50)
set_up-count_example = set_up-count half 7 (omega arith)

abbrev naturals : Doubles
naturals = record {
  Double = ℕ;
  of_uint = λ n. n;
  to_uint = λ n. n;
  one = 1;
  add = λ a b. a + b;
  sub = λ a b. a - b;
  mul = λ a b. a * b;
  div = λ a b. a / b;
  lt = ltb;
  eq = λ a b. a == b;
}

naturals-Exact : Exact naturals
naturals-Exact = record { back = λ n h. refl; order = λ m n h k. refl }

abbrev sixes : Quantiles ℕ
sixes = record { Dist = ℕ; insert = λ n d. d + n; result = λ d q. 6 }

abbrev sender : KissatWrapper ℕ ℕ
sender = record {
  exp_clause_lbd_lim = 3;
  exp_lbdq_lim = 0;
  lbd_dist = 0;
  exp_clauses_buf = Buffer.init;
}

steps : (inc_exp_clause_gen naturals sixes sender).exp_clause_lbd_lim ≡ 3
unfolding inc_exp_clause_gen
steps = refl

fewer :
    (dec_exp_clause_gen naturals sixes
      (dec_exp_clause_gen naturals sixes sender)).exp_clause_lbd_lim
    ≡ 2
unfolding dec_exp_clause_gen
fewer = refl

sixth : get_lbd_upperbound naturals sixes 2000 0 (sixes.insert 2 0) ≡ 6
unfolding get_lbd_upperbound
sixth = refl

should_be_exported_lem_example :
    (((should_be_exported naturals sixes sender 2000 2).1 ≡ true)
      × (0 < 3)
      × (0 < 6)
      × (2 ≤ 3)
      × (2 ≤ 6))
    ⊎ (((should_be_exported naturals sixes sender 2000 2).1 ≡ false)
        × ((◌≡◌ {A = ℕ} 3 0) ⊎ ((◌≡◌ {A = ℕ} 6 0) ⊎ ((3 < 2) ⊎ (6 < 2)))))
should_be_exported_lem_example =
    should_be_exported_lem naturals sixes sender 2000 2 3 6 naturals-Exact (omega arith)
      (omega arith) refl sixth

record Held : Type 0 where
  whole : List Clause
  part : Clause

-- Both calls test the variable's number first.
reserve : ℕ → Held → Result Held
reserve n s = if leb n external_max_var then ok s else fault

take : ℤ → Held → Result Held
take n s =
    if abs n == 0
    then ok (record { whole = s.whole ++ (s.part ∷ []); part = [] })
    else if leb (abs n) external_max_var
    then ok (record s { part = s.part ++ (n ∷ []) })
    else fault

abbrev holder : KissatInput
holder = record { State = Held; reserve = reserve; add = take }

holder-FeedLaws : FeedLaws holder
unfolding reserve take
holder-FeedLaws = record {
  clauses = λ s. s.whole;
  pending = λ s. s.part;
  reserve_keeps = λ n s low.
      let e : leb n external_max_var ≡ true = ground (arith, low) in (s, rw e refl, refl, refl);
  add_literal = λ n s h low.
      let e : (abs n == 0) ≡ false = ground (arith, h) in
      let e' : leb (abs n) external_max_var ≡ true = ground (arith, low) in
      (record s { part = s.part ++ (n ∷ []) }, rw e (rw e' refl), refl, refl);
  add_end = λ s. (record { whole = s.whole ++ (s.part ∷ []); part = [] }, refl, refl, refl);
}

abbrev two : Instance
two = record {
  clauses = (pos 2 ∷ negsuc 0 ∷ []) ∷ (pos 1 ∷ []) ∷ [];
  num_vars = 2;
  num_clauses = 2;
  tot_literals = 3;
}

two-IsInstance : IsInstance two
two-IsInstance = record {
  lits = (
    ((omega arith, omega arith), ((omega arith, omega arith), tt)),
    (((omega arith, omega arith), tt), tt),
  );
  vars_fit = omega arith;
  count = refl;
  total = refl;
}

load_formula-fed_example :
    (t : Held) × (load_formula holder two (record { whole = []; part = [] }) ≡ ok (2, true, t))
    × (t.whole ≡ two.clauses)
    × (t.part ≡ [])
unfolding holder-FeedLaws
load_formula-fed_example =
    load_formula-fed holder-FeedLaws two (record { whole = []; part = [] }) two-IsInstance
      (omega arith) refl
