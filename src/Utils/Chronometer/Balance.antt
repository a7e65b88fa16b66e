-- ===== src/Utils/Chronometer/Balance.antt =====
-- No time is lost and none is counted twice.
use dps_pos.Base.{ℕ, Bool-cases, inl, inr, ◌≡◌, refl, sym, ap, ◌∙◌, List, [], ◌∷◌}
use dps_pos.Base.Result.{Result, ok, fault}
use dps_pos.Utils.Chronometer.{
  ProcName, running_time, waiting_time, exchanging_time, period_update_time, same, Clock, ProcTime,
  Chronometer, add_time, inc_count, charge, start, resume, finish, stop, toggle_rest, toggle,
}

-- Differences of times add up, as in `std::chrono`.
pub record ClockLaws (k : Clock) : Type 0 where
  pub add_comm : (a b : k.Duration) → k.add a b ≡ k.add b a
  pub add_assoc : (a b c : k.Duration) → k.add (k.add a b) c ≡ k.add a (k.add b c)
  pub add-zero : (a : k.Duration) → k.add a k.zero ≡ a
  pub since_self : (t : k.Time) → k.since t t ≡ k.zero
  pub since_since : (a b c : k.Time) → k.add (k.since b a) (k.since c b) ≡ k.since c a

module _ {k : Clock} (w : ClockLaws k) where
  open k use {Time, Duration, add, since}

  -- All that has been measured.
  abbrev pub total : (ProcName → Duration) → Duration
  total time =
      add (time running_time)
        (add (time waiting_time) (add (time exchanging_time) (time period_update_time)))

  -- What the timer that runs has not been charged with yet.
  abbrev pub pending : Time → List (ProcTime k) → Duration
  pending now [] = k.zero
  pending now (pt ∷ stack) = since now pt.start

  swap : (a b d : Duration) → add (add a d) b ≡ add (add a b) d
  swap a b d = w.add_assoc a d b ∙ ap (add a) (w.add_comm d b) ∙ sym (w.add_assoc a b d)

  total-add_time :
      (time : ProcName → Duration) (type : ProcName) (d : Duration)
      → total (add_time k time type d) ≡ add (total time) d
  unfolding add_time
  total-add_time time running_time d = swap (time running_time) _ d
  total-add_time time waiting_time d =
      ap (add (time running_time)) (swap (time waiting_time) _ d)
      ∙ sym (w.add_assoc (time running_time) _ d)
  total-add_time time exchanging_time d =
      ap (add (time running_time)) (
        ap (add (time waiting_time)) (swap (time exchanging_time) _ d)
        ∙ sym (w.add_assoc (time waiting_time) _ d))
      ∙ sym (w.add_assoc (time running_time) _ d)
  total-add_time time period_update_time d =
      ap (add (time running_time)) (
        ap (add (time waiting_time)) (sym (w.add_assoc (time exchanging_time) _ d))
        ∙ sym (w.add_assoc (time waiting_time) _ d))
      ∙ sym (w.add_assoc (time running_time) _ d)

  -- What a call does, at one reading of the clock.
  pub data Event : Type 0 where
    starts stops : ProcName → Event
    toggles : ProcName → ProcName → Event

  abbrev pub handle : Event → Time → Chronometer k → Result (Chronometer k)
  handle (starts p) now c = ok (start k p now c)
  handle (stops p) now c = stop k p now c
  handle (toggles p q) now c = toggle k p q now c

  -- Charged and pending time together.
  abbrev pub measured : Time → Chronometer k → Duration
  measured now c = add (total c.time) (pending now c.stack)

  total-charge :
      (now : Time) (stack : List (ProcTime k)) (time : ProcName → Duration)
      → total (charge k now stack time) ≡ add (total time) (pending now stack)
  unfolding charge
  total-charge now [] time = sym (w.add-zero (total time))
  total-charge now (pt ∷ stack) time = total-add_time time pt.type (since now pt.start)

  pending-resume :
      (now : Time) (stack : List (ProcTime k)) → pending now (resume k now stack) ≡ k.zero
  unfolding resume
  pending-resume now [] = refl
  pending-resume now (pt ∷ stack) = w.since_self now

  -- The timer that ran is charged with all its time.
  Settled : Time → List (ProcTime k) → (ProcName → Duration) → Chronometer k → Type 0
  Settled now stack time c =
      (total c.time ≡ add (total time) (pending now stack)) × (pending now c.stack ≡ k.zero)

  finish-Settled :
      (type : ProcName) (now : Time) (stack : List (ProcTime k)) (time : ProcName → Duration)
      (count : ProcName → ℕ) (c' : Chronometer k)
      → finish k type now stack time count ≡ ok c'
      → Settled now stack time c'
  unfolding finish Settled
  finish-Settled type now [] time count c' run = absurd (cc)
  finish-Settled type now (pt ∷ stack) time count c' run = elim (Bool-cases (same pt.type type)) [
    | inl fine ↦
        let r : Chronometer k = record {
          time = add_time k time pt.type (since now pt.start);
          count = count;
          stack = resume k now stack;
        } in
        let both : ok r ≡ ok c' = rw fine at run in
        let e : r ≡ c' = cc in
        (
          ap (λ x. total x.time) (sym e) ∙ total-add_time time pt.type (since now pt.start),
          ap (λ x. pending now x.stack) (sym e) ∙ pending-resume now stack,
        )
    | inr wrong ↦
        let bad : Result (Chronometer k) = fault in
        let e : bad ≡ ok c' = rw wrong at run in absurd (cc)
  ]

  Settled-measured :
      (now : Time) (c c' : Chronometer k)
      → Settled now c.stack c.time c'
      → measured now c' ≡ measured now c
  unfolding Settled
  Settled-measured now c c' (t, p) = ap (add (total c'.time)) p ∙ w.add-zero _ ∙ t

  toggle_rest-measured :
      (q : ProcName) (now : Time) (x : Result (Chronometer k)) (c c' : Chronometer k)
      → ((d : Chronometer k) → x ≡ ok d → Settled now c.stack c.time d)
      → toggle_rest k q now x ≡ ok c'
      → measured now c' ≡ measured now c
  unfolding toggle_rest Settled
  toggle_rest-measured q now fault c c' h run = absurd (cc)
  toggle_rest-measured q now (ok d) c c' h run =
      let r : Chronometer k = record {
        time = d.time;
        count = inc_count k d.count q;
        stack = record { type = q; start = now } ∷ d.stack;
      } in
      let both : ok r ≡ ok c' = run in
      let e : r ≡ c' = cc in
      ap (measured now) (sym e)
      ∙ ap (add (total d.time)) (w.since_self now)
      ∙ w.add-zero _
      ∙ (h d refl).0

  -- At one reading of the clock a call moves time between the accounts and changes no sum.
  handle-measured :
      (e : Event) (now : Time) (c c' : Chronometer k)
      → handle e now c ≡ ok c'
      → measured now c' ≡ measured now c
  unfolding start stop toggle
  handle-measured (starts p) now c c' run =
      let r : Chronometer k = start k p now c in
      let both : ok r ≡ ok c' = run in
      let e : r ≡ c' = cc in
      ap (measured now) (sym e)
      ∙ ap (add (total r.time)) (w.since_self now)
      ∙ w.add-zero _
      ∙ total-charge now c.stack c.time
  handle-measured (stops p) now c c' run =
      Settled-measured now c c' (finish-Settled p now c.stack c.time c.count c' run)
  handle-measured (toggles p q) now c c' run =
      toggle_rest-measured q now (stop k p now c) c c'
        (λ d h. finish-Settled p now c.stack c.time c.count d h) run

  -- From the chronometer `c` at the time `t` on, a sequence of calls with a timer running at each; `d` and
  -- `u` are those after the last.
  pub data Run (t : Time) (c : Chronometer k) : Time → Chronometer k → Type 0 where
    here : Run t c t c
    call :
        {u now : Time} {d d' : Chronometer k}
        → Run t c u d
        → (e : Event) (pt : ProcTime k) (stack : List (ProcTime k)) → d.stack ≡ pt ∷ stack
        → handle e now d ≡ ok d'
        → Run t c now d'

  -- Over any sequence of starts, stops and toggles during which a timer runs, the time that is measured
  -- grows by exactly the time that passes: none is lost, and none is counted twice.
  pub Run-measured :
      (t : Time) (c : Chronometer k) (u : Time) (d : Chronometer k)
      → Run t c u d
      → measured u d ≡ add (measured t c) (since u t)
  Run-measured t c u d here = sym (ap (add (measured t c)) (w.since_self t) ∙ w.add-zero _)
  Run-measured t c u d (call {u = v} {d = b} r e pt stack top run) =
      handle-measured e u b d run
      ∙ ap (add (total b.time)) (
          ap (pending u) top
          ∙ sym (w.since_since pt.start v u)
          ∙ ap (λ x. add (pending v x) (since u v)) (sym top))
      ∙ sym (w.add_assoc (total b.time) _ _)
      ∙ ap (λ x. add x (since u v)) (Run-measured t c v b r)
      ∙ w.add_assoc (measured t c) _ _
      ∙ ap (add (measured t c)) (w.since_since t v u)
