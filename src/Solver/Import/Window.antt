-- ===== src/Solver/Import/Window.antt =====
-- What one thread takes over from one queue in deterministic mode.
use dps_pos.Base.{
  ℕ, zero, suc, ◌+◌, ◌-◌, ◌≤◌, ◌<◌, ◌≡◌, ◌≢◌, refl, ap, ◌∙◌, List, [], ◌∷◌, Bool, true, false, some,
  length, get_elem?, set, arith, map, slice, slice_zero, slice_step, get_elem?-map, u64,
  get_elem?-set_self, get_elem?_lt, get_elem?-set_ne,
}
use dps_pos.Period.Clause.{Clause}
use dps_pos.Period.PrdClauses.{PrdClauses}
use dps_pos.Period.PrdClauses
use dps_pos.Period.Queue.{PrdClausesQueue, export_set}
use dps_pos.Period.Queue.Invariant.{IsQueue, All-get}
use dps_pos.Period.Queue.Exportation.{length-export_set, complete_exportation-IsQueue}
use dps_pos.Period.Queue.Lookup.{get_next-due, get_next-late}
use dps_pos.Solver.Import.{done, waits, Imports, push_all, take_set, import_queue}

-- What a set hands over: its clauses and the length that its thread proposes for a period.
pub record Parcel : Type 0 where
  pub clauses : List Clause
  pub prd_len : ℕ

abbrev pub parcel : PrdClauses → Parcel
parcel p = record { clauses = p.clauses; prd_len = p.prd_len }

unfoldable pub parcels : PrdClausesQueue → List Parcel
parcels q = map parcel q.queue

-- The parcels are taken in the order of the list.
pub receive : List Parcel → Imports → Imports
receive [] m = m
receive (p ∷ ps) m =
    let m' = push_all p.clauses m in
    receive ps (record m' { sum_prd_len_cand = u64 (m'.sum_prd_len_cand + p.prd_len) })

parcels-export_set : (p : ℕ) (xs : List PrdClauses) → map parcel (export_set p xs) ≡ map parcel xs
unfolding export_set PrdClauses.complete_exportation
parcels-export_set p [] = refl
parcels-export_set p (x ∷ xs) = ground (arith, parcels-export_set p xs)

-- The queue after thread `t` has taken its sets up to `period`.
pub record Taken (f t period : ℕ) (q q' : PrdClausesQueue) : Type 0 where
  pub valid : IsQueue f q'
  pub next : get_elem? q'.next_period t ≡ some (suc period)
  pub others : (j : ℕ) → t ≢ j → get_elem? q'.next_period j ≡ get_elem? q.next_period j
  pub contents : parcels q' ≡ parcels q
  pub as_long : length q'.queue ≡ length q.queue

-- One round of the loop, over a set that is completed.
record Round (f t n period : ℕ) (q : PrdClausesQueue) : Type 0 where
  taken : PrdClauses
  after : PrdClausesQueue
  step :
      (fuel : ℕ) (nd : Bool) (m : Imports)
      → import_queue (suc fuel) nd t period q m
        ≡ import_queue fuel nd t period after (take_set taken m)
  here : get_elem? (parcels q) (n - f) ≡ some (parcel taken)
  moved : Taken f t n q after

round :
    (f t n period : ℕ) (q : PrdClausesQueue)
    → IsQueue f q
    → get_elem? q.next_period t ≡ some n
    → n ≤ period
    → suc n < f + length q.queue
    → Round f t n period q
unfolding import_queue parcels
round f t n period q v at due room =
    let (s, found, e, here, ready) = get_next-due f q v t n period at due in
    let (q', run, v', next, sets) = complete_exportation-IsQueue f t n q v at room in
    let full : s.completed ≡ true = ground (arith, ready) in
    let own : get_elem? (set q.next_period t (n + 1)) t ≡ some (n + 1) =
      get_elem?-set_self q.next_period t (n + 1) (get_elem?_lt q.next_period t n at) in
    let succ : n + 1 ≡ suc n = omega arith in
    record {
      taken = s;
      after = q';
      step = λ fuel nd m. rw (found, import_queue) (rw full (rw e (rw run)));
      here = get_elem?-map parcel q.queue (n - f) s here;
      moved = record {
        valid = v';
        next = rw next (own ∙ ap some succ);
        others = λ j h. rw next (get_elem?-set_ne q.next_period t j (n + 1) h);
        contents = rw sets (parcels-export_set n q.queue);
        as_long = rw sets (length-export_set n q.queue);
      };
    }

Taken-trans :
    (f t n period : ℕ) (q r s : PrdClausesQueue)
    → Taken f t n q r
    → Taken f t period r s
    → Taken f t period q s
Taken-trans f t n period q r s a b = record {
  valid = b.valid;
  next = b.next;
  others = λ j h. b.others j h ∙ a.others j h;
  contents = b.contents ∙ a.contents;
  as_long = b.as_long ∙ a.as_long;
}

-- With all due sets completed, the loop takes the `k` sets from the thread's next period on.
import_due :
    (k fuel f t n period : ℕ) (nd : Bool) (q : PrdClausesQueue) (m : Imports)
    → IsQueue f q
    → get_elem? q.next_period t ≡ some n
    → n + k ≡ suc period
    → suc period < f + length q.queue
    → k < fuel
    → (q' : PrdClausesQueue) × (import_queue fuel nd t period q m
        ≡ done (q', receive (slice (n - f) k (parcels q)) m))
      × Taken f t period q q'
unfolding receive take_set import_queue
import_due k zero f t n period nd q m v at e room h = absurd (omega arith)
import_due zero (suc fuel) f t n period nd q m v at e room h =
    let none_left : n ≡ suc period = omega arith in
    (
      q,
      rw (get_next-late f q v t n period at (omega arith), import_queue)
          (rw (slice_zero (n - f) (parcels q))),
      record {
        valid = v;
        next = at ∙ ap some none_left;
        others = λ j h. refl;
        contents = refl;
        as_long = refl;
      },
    )
import_due (suc k) (suc fuel) f t n period nd q m v at e room h =
    let r = round f t n period q v at (omega arith) (omega arith) in
    let (q', run, taken) =
      import_due k fuel f t (suc n) period nd r.after (take_set r.taken m) r.moved.valid
        r.moved.next (omega arith) (omega (arith, r.moved.as_long)) (omega arith) in
    let low : f ≤ n = All-get _ q.next_period t n v.kept at in
    let index : suc n - f ≡ suc (n - f) = omega arith in
    (
      q',
      rw (slice_step (n - f) k (parcels q) (parcel r.taken) r.here)
          (r.step fuel nd m ∙ (rw (r.moved.contents, index) at run)),
      Taken-trans f t n period q r.after q' r.moved taken,
    )

-- A round for each set of a queue, and one to see that no more is due, is enough: if all sets up to
-- `period` are completed, the loop over a queue ends, in either mode. It hands over exactly the sets
-- from the thread's next period up to `period`, each once and in order of the periods, and the next
-- period of the thread is then the one after `period`; of the queue only export counts change.
pub import_queue-due :
    (f t n period : ℕ) (nd : Bool) (q : PrdClausesQueue) (m : Imports)
    → IsQueue f q
    → get_elem? q.next_period t ≡ some n
    → n ≤ suc period
    → suc period < f + length q.queue
    → (q' : PrdClausesQueue) × (import_queue (suc (length q.queue)) nd t period q m
        ≡ done (q', receive (slice (n - f) (suc period - n) (parcels q)) m))
      × Taken f t period q q'
import_queue-due f t n period nd q m v at low room =
    let start : f ≤ n = All-get _ q.next_period t n v.kept at in
    import_due (suc period - n) (suc (length q.queue)) f t n period nd q m v at (omega arith) room
      (omega arith)

stuck :
    (k fuel f t n period : ℕ) (q : PrdClausesQueue) (m : Imports)
    → IsQueue f q
    → get_elem? q.next_period t ≡ some n
    → suc (n + k) ≡ f + length q.queue
    → n + k ≤ period
    → k < fuel
    → import_queue fuel false t period q m ≡ waits
unfolding import_queue
stuck k zero f t n period q m v at e due h = absurd (omega arith)
stuck zero (suc fuel) f t n period q m v at e due h =
    let (s, found, p, here, ready) = get_next-due f q v t n period at (omega arith) in
    let open_set : s.completed ≡ false = ground (arith, ready) in
    rw (found, import_queue) (rw open_set)
stuck (suc k) (suc fuel) f t n period q m v at e due h =
    let r = round f t n period q v at (omega arith) (omega arith) in
    r.step fuel false m
    ∙ stuck k fuel f t (suc n) period r.after (take_set r.taken m) r.moved.valid r.moved.next
        (omega (arith, r.moved.as_long)) (omega arith) (omega arith)

-- In deterministic mode a thread does not get past a set that is due and not completed: as long as
-- the period that the queue's own thread is working on is at most `period`, the loop waits.
pub import_queue-waits :
    (f t n period : ℕ) (q : PrdClausesQueue) (m : Imports)
    → IsQueue f q
    → get_elem? q.next_period t ≡ some n
    → f + length q.queue ≤ suc period
    → import_queue (suc (length q.queue)) false t period q m ≡ waits
import_queue-waits f t n period q m v at due =
    let low : f ≤ n = All-get _ q.next_period t n v.kept at in
    let high : n < f + length q.queue = All-get _ q.next_period t n v.behind at in
    stuck (f + length q.queue - suc n) (suc (length q.queue)) f t n period q m v at (omega arith)
      (omega arith) (omega arith)
