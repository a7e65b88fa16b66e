-- ===== src/System/Launch/Tests.antt =====
-- Two threads, the second of which has its answer at once, and the claims about launches on them.
use dps_pos.Base.{
  ℕ, ◌+◌, ◌*◌, ◌≤◌, ◌≡◌, refl, ap, subst, [], ◌∷◌, Option, none, some, length, ltb, ◌==◌,
  if◌then◌else◌, arith, Bool-cases, inl, inr,
}
use dps_pos.Base.Int.{pos}
use dps_pos.Parallel.Sharer.{SatResult, unsat, i_finished, is_better, should_be_terminated}
use dps_pos.Parallel.Sharer
use dps_pos.Period.PrdClauses
use dps_pos.Period.Queue
use dps_pos.Period.Manager
use dps_pos.Solver.Import.{import_queue}
use dps_pos.System.{publish, add_clauses}
use dps_pos.System.Rounds.{state_at_zero}
use dps_pos.System.Launch.{
  Program, State, launch, finish, take, move, check, solve, answer_late, close, Reach, start, later,
}
use dps_pos.System.Launch.Plain.{FirstAnswer, answer_at}
use dps_pos.System.Launch.Outcome.{Reach-winner, Reach-period}
use dps_pos.System.Launch.Measure.{Reach_bounded}
use dps_pos.System.Launch.Ending.{Steps, AllStopped, Reach-AllStopped}

abbrev answer : ℕ → Option SatResult
answer l = if ltb 3 l then some unsat else none

-- The threads count, and a count above 3 is an answer.
abbrev counting : Program ℕ
counting = record {
  setup = record {
    num_threads = 2;
    margin = 0;
    first = λ t. if t == 1 then 5 else 0;
    work = λ l. (l + 1, record { clauses = (pos l ∷ pos 7 ∷ []) ∷ []; prd_len = 1 });
    held = λ l. record { clauses = []; units = []; sum_prd_len_cand = 0 };
    absorb = λ l m. l + length m.clauses;
  };
  answer = answer;
  late_answer = λ l. some unsat;
  last_len = λ l. 1;
}

abbrev Run : Type 0
Run = (k : ℕ) × (s : State ℕ) × Reach counting 1 k s

answer_is : (l : ℕ) (x : SatResult) → answer l ≡ some x → x ≡ unsat
answer_is l x e = elim (Bool-cases (ltb 3 l)) [
  | inl more ↦ let k : some unsat ≡ some x = rw more at e in cc
  | inr less ↦ let k : none ≡ some x = rw less at e in absurd (cc)
]

counting-FirstAnswer : FirstAnswer counting 0 1 unsat
counting-FirstAnswer = record {
  is_thread = omega arith;
  known = λ e. absurd (cc);
  room = omega arith;
  answers = ap answer (state_at_zero counting.setup 1);
  none_before = λ p t l h. absurd (omega arith);
  none_below = λ t h.
      let e : 0 ≡ t = omega arith in
      subst (λ u. answer_at counting 0 1 unsat 0 u ≡ none) e
        (ap answer (state_at_zero counting.setup 0));
  agree = λ p t x l h e. answer_is _ x e;
  late_agree = λ t x l silent e. cc;
}

-- Thread 1 stops first; thread 0 ends its period, imports, is told to stop, and still comes to an
-- answer.
run : Run
unfolding launch Sharer.init i_finished is_better should_be_terminated Sharer.complete_curr_period
    publish add_clauses PrdClauses.add_clause Queue.last Queue.set_last Queue.complete_addition
    PrdClauses.complete_addition Queue.remove_exported Queue.init PrdClauses.init Manager.get
    Manager.set_num_threads import_queue Queue.get_next Queue.at_period Queue.complete_exportation
    Queue.export_set PrdClauses.complete_exportation
run =
    let solves : Run = (_, _, later start (solve 1 (omega arith) refl refl refl)) in
    let closes : Run = (_, _, later solves.2 (close 1 (omega arith) refl refl)) in
    let ends : Run = (_, _, later closes.2 (finish 0 (omega arith) refl refl refl refl)) in
    let takes : Run =
      (_, _, later ends.2 (take 0 1 (omega arith) refl (omega arith) (omega arith) refl refl)) in
    let moves : Run = (_, _, later takes.2 (move 0 2 (omega arith) refl (inl (omega arith)))) in
    let checks : Run = (_, _, later moves.2 (check 0 (omega arith) refl)) in
    let answers : Run = (_, _, later checks.2 (answer_late 0 (omega arith) refl refl refl)) in
    (_, _, later answers.2 (close 0 (omega arith) refl refl))

-- It takes eight steps, and thread 0 stops in period 1.
run_steps : run.0 ≡ 8
unfolding run
run_steps = refl

Reach-winner_example :
    (run.1.sharer.final_result ≡ unsat)
    × (run.1.sharer.winner_period ≡ 0)
    × (run.1.sharer.winner_id ≡ pos 1)
unfolding run
Reach-winner_example = Reach-winner counting 0 1 unsat 1 run.0 run.1 counting-FirstAnswer run.2 refl

Reach-period_example : (run.1.workers 0).period ≤ 0 + 0 + 1
Reach-period_example =
    Reach-period counting 0 1 unsat 1 run.0 run.1 0 counting-FirstAnswer run.2 (omega arith)

Reach_bounded_example : run.0 ≤ ((2 + 4) * (0 + 0 + 2) + (2 + 2)) * 2
Reach_bounded_example = Reach_bounded counting 0 1 unsat 1 run.0 run.1 counting-FirstAnswer run.2

Reach-AllStopped_example :
    (s' : State ℕ) × Steps counting (launch counting 1) s'
    × AllStopped counting s'
    × (s'.sharer.final_result ≡ unsat)
    × (s'.sharer.winner_period ≡ 0)
    × (s'.sharer.winner_id ≡ pos 1)
Reach-AllStopped_example =
    Reach-AllStopped counting 0 1 unsat 1 0 (launch counting 1) counting-FirstAnswer start
