-- ===== src/System/Update.antt =====
-- One thread changes, and the queue of one thread at most.
use dps_pos.Base.{
  ℕ, ◌<◌, ◌≡◌, ◌≢◌, refl, sym, subst, ◌∙◌, List, some, true, false, get_elem?, set, ◌==◌, arith,
  Bool-cases, inl, inr, get_elem?-set_self, get_elem?-set_ne,
}
use dps_pos.Base.Result.{ok}
use dps_pos.Period.Queue.{PrdClausesQueue}
use dps_pos.Period.Manager
use dps_pos.System.{Setup, System, Thread, update}
use dps_pos.System.Invariant.{OnCourse, HoldsIn, Valid}

pub at_get :
    (qs : List PrdClausesQueue) (i : ℕ) (a b : PrdClausesQueue)
    → get_elem? qs i ≡ some a
    → Manager.get qs i ≡ ok b
    → a ≡ b
unfolding Manager.get
at_get qs i a b h e =
    let k : ok a ≡ ok b =
      (let x : Manager.get qs i ≡ ok a = rw (h, Manager.get) refl in sym x ∙ e) in
    cc

module _ {L : Type 0} (c : Setup L) where
  open c use {num_threads, margin, first, work, held, absorb}

  -- The threads' own states after thread `t` has changed.
  pub course_update :
      (s : System L) (t : ℕ) (th : Thread L)
      → Valid c s
      → OnCourse c t th.period th.local th.phase
      → (u : ℕ)
      → OnCourse c u
          (update s.threads t th u).period
          (update s.threads t th u).local
          (update s.threads t th u).phase
  course_update s t th v h u = elim (Bool-cases (t == u)) [
    | inl same ↦
        let e : t ≡ u = ground arith in
        rw same (subst (λ x. OnCourse c x th.period th.local th.phase) e h)
    | inr other ↦ rw other (v.on_course u)
  ]

  -- The queues after that of thread `w` has changed.
  pub queue_update :
      (s : System L) (w : ℕ) (q' : PrdClausesQueue) (f : ℕ → Thread L)
      → Valid c s
      → w < num_threads
      → HoldsIn c f w q'
      → ((u : ℕ) (q : PrdClausesQueue)
          → u < num_threads
          → w ≢ u
          → HoldsIn c s.threads u q
          → HoldsIn c f u q)
      → (u : ℕ) → u < num_threads
      → (q : PrdClausesQueue) × (get_elem? (set s.queues w q') u ≡ some q) × HoldsIn c f u q
  queue_update s w q' f v lw hw rest u l = elim (Bool-cases (w == u)) [
    | inl same ↦
        let e : w ≡ u = ground arith in
        (
          q',
          subst (λ x. get_elem? (set s.queues w q') x ≡ some q') e
              (get_elem?-set_self s.queues w q' (omega (arith, v.num_queues))),
          subst (λ x. HoldsIn c f x q') e hw,
        )
    | inr other ↦
        let d : w ≢ u = ground arith in
        let (q, at, h) = v.queue_of u l in
        (q, get_elem?-set_ne s.queues w u q' d ∙ at, rest u q l d h)
  ]

  pub update_self : (f : ℕ → Thread L) (t : ℕ) (th : Thread L) → update f t th t ≡ th
  update_self f t th = let e : (t == t) ≡ true = ground arith in rw e refl

  pub update_other :
      (f : ℕ → Thread L) (t : ℕ) (th : Thread L) (u : ℕ) → t ≢ u → update f t th u ≡ f u
  update_other f t th u d = let e : (t == u) ≡ false = ground arith in rw e refl
