-- ===== src/System/Launch/Solvers/Ready.antt =====
-- The sets that are due are there, so the import does not wait.
use dps_pos.Base.{
  ℕ, subst, zero, suc, ◌+◌, ◌-◌, ◌^◌, ◌<◌, ◌≤◌, ◌≡◌, refl, sym, ap, ◌∙◌, List, some, false, set,
  length, get_elem?, arith, get_elem?-set_ne, slice, ◌%◌, ◌≢◌, u32,
}
use dps_pos.Base.Result.{Result}
use dps_pos.Period.PrdClauses.{PrdClauses}
use dps_pos.Period.Clause.{Clause}
use dps_pos.Period.Queue.{PrdClausesQueue}
use dps_pos.Period.Queue
use dps_pos.Period.Queue.Invariant.{IsQueue}
use dps_pos.Period.Manager.{get_at}
use dps_pos.Parallel.Sharer.{Sharer}
use dps_pos.Parallel.Sharer
use dps_pos.Solver.Import.{done, Imports, import_targets}
use dps_pos.System.Publish.{add_clauses-Filled}
use dps_pos.System.{add_clauses}
use dps_pos.System.Publish.{Filled}
use dps_pos.System.Publish.Last.{length-set_last, Sets-set_last}
use dps_pos.System.Ring.{dist, dist_ring}
use dps_pos.Solver.Import.Window.{import_queue-due, receive, parcels}
use dps_pos.System.Launch.{Program}
use dps_pos.System.Launch.Solvers.Exchange.{from_target}

-- The set of `period` of thread `u` is completed, and thread `t` has not gone past it.
pub record Due (x : Sharer) (t period u : ℕ) : Type 0 where
  pub queue : PrdClausesQueue
  pub front : ℕ
  pub next : ℕ
  pub at : get_elem? x.pcqm u ≡ some queue
  pub valid : IsQueue front queue
  pub next_of : get_elem? queue.next_period t ≡ some next
  pub not_past : next ≤ suc period
  pub completed : suc period < front + length queue.queue

pub Due-set :
    (x : Sharer) (t period u w : ℕ) (q : PrdClausesQueue)
    → w ≢ u
    → Due x t period u
    → Due (record x { pcqm = set x.pcqm w q }) t period u
Due-set x t period u w q away d = record {
  queue = d.queue;
  front = d.front;
  next = d.next;
  at = get_elem?-set_ne x.pcqm w u q away ∙ d.at;
  valid = d.valid;
  next_of = d.next_of;
  not_past = d.not_past;
  completed = d.completed;
}

module _ {L : Type 0} (c : Program L) where
  open c use {setup}
  open setup use {num_threads}

  pub import_targets-done :
      (left i t period : ℕ) (x : Sharer) (m : Imports)
      → t < num_threads
      → num_threads < 2 ^ 31
      → 0 < i
      → i + left ≡ num_threads
      → x.num_threads ≡ num_threads
      → ((j : ℕ) → i ≤ j → j < num_threads → Due x t period ((t + j) % num_threads))
      → (y : Sharer × Imports) × (import_targets left i false t period x m ≡ done y)
  unfolding import_targets
  import_targets-done zero i t period x m l few z sum nt due = ((x, m), refl)
  import_targets-done (suc left) i t period x m l few z sum nt due =
      let w = (t + i) % num_threads in
      let li : i < num_threads = omega (arith, sum) in
      let d = due i (omega arith) li in
      let wrap : u32 (t + i) % x.num_threads ≡ w =
        ap (λ k. u32 (t + i) % k) nt ∙ ap (λ k. k % num_threads) (omega (arith, few)) in
      let (q', run, _) =
        import_queue-due d.front t d.next period false d.queue m d.valid d.next_of d.not_past
          d.completed in
      let (y, rest) =
        import_targets-done left (suc i) t period (record x { pcqm = set x.pcqm w q' })
          (receive (slice (d.next - d.front) (suc period - d.next) (parcels d.queue)) m) l few
          (omega arith) (omega (arith, sum)) nt
          (λ j low lj.
            let away : w ≢ (t + j) % num_threads = λ e.
              let same : i ≡ j =
                sym (dist_ring num_threads t i l li z)
                ∙ ap (dist num_threads t) e
                ∙ dist_ring num_threads t j l lj (omega arith) in
              absurd (omega arith) in
            Due-set x t period ((t + j) % num_threads) w q' away (due j (omega arith) lj)) in
      (
        y,
        ap (from_target c left i t period x m) wrap
            ∙ (rw (get_at x.pcqm w d.queue d.at) (rw run rest)),
      )

pub completes :
    (x : Sharer) (t len : ℕ) (q q' : PrdClausesQueue)
    → get_elem? x.pcqm t ≡ some q
    → Queue.complete_addition q len ≡ Result.ok q'
    → Sharer.complete_curr_period x t len ≡ Result.ok (record x { pcqm = set x.pcqm t q' })
unfolding Sharer.complete_curr_period
completes x t len q q' at run = rw (get_at x.pcqm t q at) (rw run refl)

-- The queue of a thread whose open set has taken its clauses.
pub Filled-IsQueue :
    (k : ℕ) (cs : List Clause) (q : PrdClausesQueue) (p p' : PrdClauses)
    → IsQueue k q
    → Queue.last q.queue ≡ Result.ok p
    → Filled cs p p'
    → IsQueue k (record q { queue = Queue.set_last q.queue p' })
Filled-IsQueue k cs q p p' v lst add =
    let same_length = length-set_last q.queue p' in
    record {
      sets =
          Sets-set_last q.next_period k q.queue p p' lst add.same_period add.same_exports
            add.still_open v.sets;
      some_set = omega (arith, same_length, v.some_set);
      threads = v.threads;
      kept = v.kept;
      behind = rw same_length v.behind;
      fits = omega (arith, same_length, v.fits);
    }

pub Filled-add_clauses :
    (cs : List Clause) (p p' : PrdClauses)
    → p.completed ≡ false
    → add_clauses cs p ≡ Result.ok p'
    → Filled cs p p'
Filled-add_clauses cs p p' o run =
    let (p2, run2, filled) = add_clauses-Filled cs p o in
    let both : Result.ok p2 ≡ Result.ok p' = sym run2 ∙ run in
    let same_set : p2 ≡ p' = cc in subst (Filled cs p) same_set filled
