-- ===== src/System/Determinism.antt =====
-- What any interleaving of the threads computes: the rounds.
use dps_pos.Base.{
  ℕ, ◌<◌, ◌≡◌, refl, sym, ap, subst, ◌∙◌, some, get_elem?, get_elem?-replicate, arith,
}
use dps_pos.Period.PrdClauses
use dps_pos.Period.Queue
use dps_pos.Period.Queue.{PrdClausesQueue}
use dps_pos.Period.Queue.Invariant.{init-IsQueue}
use dps_pos.Period.Manager
use dps_pos.Period.Manager.{get_at}
use dps_pos.Solver.Import.Window.{parcels}
use dps_pos.System.{Setup, System, working, init, Step, finish, take, move, Reach, start, later}
use dps_pos.System.Ring.{dist_range}
use dps_pos.System.Rounds.{state_at, export_at, state_at_zero}
use dps_pos.System.Invariant.{OnCourse, HoldsIn, Valid, closed_by}
use dps_pos.Base.Result.{ok}
use dps_pos.System.Steps.{finish-Valid, take-Valid, move-Valid}

module _ {L : Type 0} (c : Setup L) where
  open c use {num_threads, margin, work}

  init-Holds : (u : ℕ) → u < num_threads → HoldsIn c (init c).threads u (Queue.init u num_threads)
  unfolding init Queue.init PrdClauses.init parcels
  init-Holds u l = record {
    valid = init-IsQueue u num_threads;
    own = get_elem?-replicate num_threads 0 u l;
    size = refl;
    posted = λ p h. absurd (omega arith);
    at_open = refl;
    next = λ t a d.
        get_elem?-replicate num_threads 0 t a
        ∙ ap some (let range = dist_range num_threads t u a l d in ground (arith, range.0));
  }

  pub init-Valid : Valid c (init c)
  unfolding init
  init-Valid = record {
    num_queues = Manager.length-set_num_threads num_threads;
    queue_of = λ u l. (
      Queue.init u num_threads,
      Manager.get_elem?-set_num_threads num_threads u l,
      init-Holds u l,
    );
    on_course = λ t. sym (state_at_zero c t);
  }

  Step-Valid : (s s' : System L) → Valid c s → Step c s s' → Valid c s'
  Step-Valid s _ v (finish t l e room at run) = finish-Valid c s t _ _ v l e room at run
  Step-Valid s _ v (take t i l e li lm at run) = take-Valid c s t i _ _ _ _ v l e li lm at run
  Step-Valid s _ v (move t i l e d) = move-Valid c s t i _ v l e d

  pub Reach-Valid : (s : System L) → Reach c s → Valid c s
  Reach-Valid _ start = init-Valid
  Reach-Valid _ (later h st) = Step-Valid _ _ (Reach-Valid _ h) st

  -- Whatever the order in which the threads reach the shared queues, a thread that works on its
  -- period `r` is in the state that the rounds, which know no order, give it at `r`.
  pub Reach-state_at :
      (s : System L) (t : ℕ)
      → Reach c s
      → (s.threads t).phase ≡ working
      → (s.threads t).local ≡ state_at c (s.threads t).period t
  Reach-state_at s t h e =
      subst (OnCourse c t (s.threads t).period (s.threads t).local) e
        ((Reach-Valid s h).on_course t)

  -- Two runs of the same framework, in any orders, with a thread that works on the same period in
  -- both: it is in the same state in both.
  pub Reach_deterministic :
      (s s' : System L) (t : ℕ)
      → Reach c s
      → Reach c s'
      → (s.threads t).phase ≡ working
      → (s'.threads t).phase ≡ working
      → (s.threads t).period ≡ (s'.threads t).period
      → (s.threads t).local ≡ (s'.threads t).local
  Reach_deterministic s s' t h h' e e' same =
      Reach-state_at s t h e ∙ ap (λ r. state_at c r t) same ∙ sym (Reach-state_at s' t h' e')

  -- In any order of the steps, the sets that thread `u` has completed are, period by period, the
  -- clauses and the length that it sends in the rounds.
  pub Reach-export_at :
      (s : System L) (u p : ℕ)
      → Reach c s
      → u < num_threads
      → p < closed_by (s.threads u)
      → (q : PrdClausesQueue) × (Manager.get s.queues u ≡ ok q)
        × (get_elem? (parcels q) p ≡ some (export_at c p u))
  Reach-export_at s u p h l lt =
      let (q, at, holds) = (Reach-Valid s h).queue_of u l in
      (q, get_at s.queues u q at, holds.posted p lt)
