-- ===== src/Utils/Chronometer.antt =====
-- DPS-src/utils/Chronometer.h and Chronometer.cpp: the time that a thread spends on each kind of work.
-- A timer that is started interrupts the one that runs, which goes on when it is stopped.
--
-- The clock is `std::chrono::system_clock`, a parameter; each call takes the time that it reads.
pub mod Balance
mod Tests
use dps_pos.Base.{ℕ, ◌+◌, List, [], ◌∷◌, Bool, true, false, u64, if◌then◌else◌}
use dps_pos.Base.Result.{Result, ok, fault}

pub data ProcName : Type 0 where
  running_time waiting_time exchanging_time period_update_time : ProcName

abbrev pub same : ProcName → ProcName → Bool
same running_time running_time = true
same waiting_time waiting_time = true
same exchanging_time exchanging_time = true
same period_update_time period_update_time = true
same _ _ = false

-- `since now start` is `now - start`.
pub record Clock : Type 1 where
  pub Time : Type 0
  pub Duration : Type 0
  pub zero : Duration
  pub add : Duration → Duration → Duration
  pub since : Time → Time → Duration

module _ (k : Clock) where
  open k use {Time, Duration, add, since}

  pub record ProcTime : Type 0 where
    pub type : ProcName
    pub start : Time

  -- The back of the stack is the head of the list. The vectors `time` and `count` have an entry for each
  -- name.
  pub record Chronometer : Type 0 where
    pub time : ProcName → Duration
    pub count : ProcName → ℕ
    pub stack : List ProcTime

  unfoldable pub init : Chronometer
  init = record { time = λ p. k.zero; count = λ p. 0; stack = [] }

  -- `time[type] += d`
  unfoldable pub add_time : (ProcName → Duration) → ProcName → Duration → ProcName → Duration
  add_time time type d p = if same p type then add (time p) d else time p

  unfoldable pub inc_count : (ProcName → ℕ) → ProcName → ProcName → ℕ
  inc_count count type p = if same p type then u64 (count p + 1) else count p

  -- The timer that runs gets its time.
  unfoldable pub charge : Time → List ProcTime → (ProcName → Duration) → ProcName → Duration
  charge now [] time = time
  charge now (pt ∷ stack) time = add_time time pt.type (since now pt.start)

  unfoldable pub start : ProcName → Time → Chronometer → Chronometer
  start type now c = record {
    time = charge now c.stack c.time;
    count = inc_count c.count type;
    stack = record { type = type; start = now } ∷ c.stack;
  }

  -- The timer below goes on.
  unfoldable pub resume : Time → List ProcTime → List ProcTime
  resume now [] = []
  resume now (pt ∷ stack) = record pt { start = now } ∷ stack

  -- The rest of a call that ends the timer that runs: it has to be of this type.
  unfoldable pub finish :
      ProcName → Time → List ProcTime → (ProcName → Duration) → (ProcName → ℕ) → Result Chronometer
  finish type now [] time count = fault
  finish type now (pt ∷ stack) time count =
      if same pt.type type
      then ok (record {
        time = add_time time pt.type (since now pt.start);
        count = count;
        stack = resume now stack;
      })
      else fault

  unfoldable pub stop : ProcName → Time → Chronometer → Result Chronometer
  stop type now c = finish type now c.stack c.time c.count

  -- Not a stop and a start: the timer below is not charged again.
  unfoldable pub toggle_rest : ProcName → Time → Result Chronometer → Result Chronometer
  toggle_rest to now fault = fault
  toggle_rest to now (ok c) = ok (record {
    time = c.time;
    count = inc_count c.count to;
    stack = record { type = to; start = now } ∷ c.stack;
  })

  unfoldable pub toggle : ProcName → ProcName → Time → Chronometer → Result Chronometer
  toggle from to now c = toggle_rest to now (stop from now c)

  unfoldable pub clear : ProcName → Chronometer → Chronometer
  clear type c = record c { time = λ p. if same p type then k.zero else c.time p }

  unfoldable pub clear_all : Chronometer → Chronometer
  clear_all c = record c { time = λ p. k.zero }

  unfoldable pub stop_all : Time → Chronometer → Chronometer
  stop_all now c = record c { time = charge now c.stack c.time; stack = [] }
