-- ===== src/Utils/Chronometer/Tests.antt =====
-- A thread that runs, exchanges clauses, and updates its period, on a clock that counts up.
use dps_pos.Base.{ℕ, ◌≡◌, refl, [], ◌∷◌}
use dps_pos.Base.Int.{ℤ, pos, sub_ℕ, ◌+ℤ◌, int_laws}
use dps_pos.Base.Result.{ok}
use dps_pos.Utils.Chronometer.{
  running_time, exchanging_time, period_update_time, Clock, Chronometer, init, start, stop, toggle,
  finish, resume, toggle_rest, add_time, inc_count,
}
use dps_pos.Utils.Chronometer.Balance.{
  ClockLaws, starts, toggles, Run, here, call, measured, Run-measured,
}

abbrev counting : Clock
counting = record {
  Time = ℕ;
  Duration = ℤ;
  zero = pos 0;
  add = λ a b. a +ℤ b;
  since = λ now start. sub_ℕ now start;
}

counting-ClockLaws : ClockLaws counting
counting-ClockLaws = record {
  add_comm = λ a b. omega int_laws;
  add_assoc = λ a b c. omega int_laws;
  add-zero = λ a. omega int_laws;
  since_self = λ t. omega int_laws;
  since_since = λ a b c. omega int_laws;
}

-- The thread starts at 10.
abbrev running : Chronometer counting
running = start counting running_time 10 (init counting)

abbrev exchanging : Chronometer counting
exchanging = start counting exchanging_time 15 running

abbrev updating : Chronometer counting
updating = record {
  time = add_time counting exchanging.time exchanging_time (sub_ℕ 18 15);
  count = inc_count counting exchanging.count period_update_time;
  stack =
      record { type = period_update_time; start = 18 }
      ∷ record { type = running_time; start = 18 }
      ∷ [];
}

three_calls : Run counting-ClockLaws 10 running 18 updating
unfolding init start toggle toggle_rest stop finish resume
three_calls =
    call
      (call here (starts exchanging_time) (record { type = running_time; start = 10 }) [] refl refl)
      (toggles exchanging_time period_update_time) (record { type = exchanging_time; start = 15 })
      (record { type = running_time; start = 10 } ∷ []) refl toggled
  where
    toggled : toggle counting exchanging_time period_update_time 18 exchanging ≡ ok updating
    toggled = refl

Run-measured_example :
    measured counting-ClockLaws 18 updating ≡ measured counting-ClockLaws 10 running +ℤ sub_ℕ 18 10
Run-measured_example = Run-measured counting-ClockLaws 10 running 18 updating three_calls
