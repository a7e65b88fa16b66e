-- ===== src/System/Progress.antt =====
-- The threads never wait for each other in a circle.
use dps_pos.Period.Manager.{get_at}
use dps_pos.Base.{
  ℕ, zero, suc, ◌+◌, ◌-◌, ◌%◌, ◌^◌, ◌<◌, ◌≤◌, ◌≡◌, ◌≢◌, length, get_elem?, refl, sym, ap, subst,
  ◌∙◌, some, false, ltb, ◌==◌, arith, Bool-cases, inl, inr,
}
use dps_pos.Solver.Import.{Imports, done, import_queue}
use dps_pos.Period.Queue.{PrdClausesQueue}
use dps_pos.Base.Result.{ok}
use dps_pos.Solver.Import.Window.{import_queue-due}
use dps_pos.System.{
  Setup, System, Phase, working, importing, Step, finish, take, move, Reach, publish,
}
use dps_pos.System.Ring.{dist, dist_ring, ring_ne, ring_lt}
use dps_pos.System.Publish.{publish_lem}
use dps_pos.System.Invariant.{closed, closed_by, next_of, OnCourse, Holds, Holds-same, Valid}
use dps_pos.System.Determinism.{Reach-Valid}

-- The place of the least value.
pub least : (f : ℕ → ℕ) (n : ℕ) → (t : ℕ) × (t < suc n) × ((u : ℕ) → u < suc n → f t ≤ f u)
least f zero =
    (0, omega arith, λ u h. let e : 0 ≡ u = omega arith in subst (λ x. f 0 ≤ f x) e (omega arith))
least f (suc n) =
    let (t, l, low) = least f n in
    elim (Bool-cases (ltb (f (suc n)) (f t))) [
      | inl new ↦ (
        suc n,
        omega arith,
        λ u h. elim (Bool-cases (u == suc n)) [
          | inl same ↦
              let e : suc n ≡ u = ground arith in subst (λ x. f (suc n) ≤ f x) e (omega arith)
          | inr other ↦ let k = low u (ground arith) in ground (arith, k)
        ],
      )
      | inr old ↦ (
        t,
        omega arith,
        λ u h. elim (Bool-cases (u == suc n)) [
          | inl same ↦ let e : suc n ≡ u = ground arith in subst (λ x. f t ≤ f x) e (ground arith)
          | inr other ↦ low u (ground arith)
        ],
      )
    ]

module _ {L : Type 0} (c : Setup L) where
  open c use {num_threads, margin, first, work, held, absorb}

  -- A thread can always publish the set of its period.
  pub publish_working :
      (s : System L) (t : ℕ)
      → Valid c s
      → t < num_threads
      → (s.threads t).phase ≡ working
      → (s.threads t).period + 2 < 2 ^ 64
      → (q : PrdClausesQueue) × (q' : PrdClausesQueue) × (get_elem? s.queues t ≡ some q)
        × (publish q (work (s.threads t).local).1 ≡ ok q')
  publish_working s t v l e room =
      let r = (s.threads t).period in
      let (q, at, h0) = v.queue_of t l in
      let nexts : ℕ → ℕ = λ j. next_of margin (s.threads j) (dist num_threads j t) in
      let h : Holds c t r nexts q =
        Holds-same c t (closed_by (s.threads t)) r nexts nexts q (ap (closed r) e) (λ j a b. refl)
          h0 in
      let (q', run, _) =
        publish_lem r t q (work (s.threads t).local).1 h.valid (sym h.size) (omega arith) h.own
          h.at_open in
      (q, q', at, run)

  finish-Step :
      (s : System L) (t : ℕ)
      → Valid c s
      → t < num_threads
      → (s.threads t).phase ≡ working
      → (s.threads t).period + 2 < 2 ^ 64
      → (s' : System L) × Step c s s'
  finish-Step s t v l e room =
      let (q, q', at, run) = publish_working s t v l e room in
      (_, finish t l e room (get_at s.queues t q at) run)

  -- The set that is due is there when no thread is a margin and a period behind.
  pub import_due :
      (s : System L) (t i : ℕ) (m : Imports)
      → Valid c s
      → t < num_threads
      → (s.threads t).phase ≡ importing i m
      → i < num_threads
      → ((u : ℕ) → u < num_threads → (s.threads t).period - margin < closed_by (s.threads u))
      → (q : PrdClausesQueue) × (q' : PrdClausesQueue) × (m' : Imports) × (get_elem? s.queues
            ((t + i) % num_threads)
          ≡ some q)
        × (import_queue (suc (length q.queue)) false t ((s.threads t).period - margin) q m
            ≡ done (q', m'))
  import_due s t i m v l e li low =
      let r = (s.threads t).period in
      let w = (t + i) % num_threads in
      let (_, pos, _, _) : OnCourse c t r (s.threads t).local (importing i m) =
        subst (λ p. OnCourse c t r (s.threads t).local p) e (v.on_course t) in
      let lw : w < num_threads = ring_lt num_threads t i l li in
      let away : t ≢ w = λ x. ring_ne num_threads t i l li pos (sym x) in
      let far : dist num_threads t w ≡ i = dist_ring num_threads t i l li pos in
      let (q, at, h) = v.queue_of w lw in
      let due : next_of margin (s.threads t) (dist num_threads t w) ≡ r - margin =
        rw e (ground (arith, far)) in
      let (q', run, _) =
        import_queue-due 0 t (r - margin) (r - margin) false q m h.valid
          (h.next t l away ∙ ap some due) (omega arith) (omega (arith, h.size, low w lw)) in
      (q, q', _, at, run)

  take-Step :
      (s : System L) (t i : ℕ) (m : Imports)
      → Valid c s
      → t < num_threads
      → (s.threads t).phase ≡ importing i m
      → i < num_threads
      → margin ≤ (s.threads t).period
      → ((u : ℕ) → u < num_threads → (s.threads t).period < closed_by (s.threads u))
      → (s' : System L) × Step c s s'
  take-Step s t i m v l e li lm low =
      let (q, q', m', at, run) = import_due s t i m v l e li (λ u a. omega (arith, low u a)) in
      (_, take t i l e li lm (get_at s.queues ((t + i) % num_threads) q at) run)

  some-Step :
      (s : System L) (t : ℕ) (p : Phase)
      → Valid c s
      → t < num_threads
      → (s.threads t).period + 2 < 2 ^ 64
      → ((u : ℕ) → u < num_threads → closed_by (s.threads t) ≤ closed_by (s.threads u))
      → (s.threads t).phase ≡ p
      → (s' : System L) × Step c s s'
  some-Step s t working v l room low e = finish-Step s t v l e room
  some-Step s t (importing i m) v l room low e =
      elim (Bool-cases (ltb (s.threads t).period margin)) [
        | inl early ↦ (_, move t i l e (inr (ground arith)))
        | inr in_time ↦ elim (Bool-cases (ltb i num_threads)) [
          | inl more ↦ take-Step s t i m v l e (ground arith) (ground arith) (λ u a.
              let k : closed_by (s.threads t) ≡ suc (s.threads t).period = ap (closed _) e in
              omega (arith, low u a, k))
          | inr last ↦ (_, move t i l e (inl (ground arith)))
        ]
      ]

  -- In no state that the steps reach do all threads wait for each other: while the period numbers
  -- are below the end of their word, one of the threads, of which there is at least one, has a step.
  pub Reach_progress :
      (s : System L)
      → Reach c s
      → 0 < num_threads
      → ((t : ℕ) → t < num_threads → (s.threads t).period + 2 < 2 ^ 64)
      → (s' : System L) × Step c s s'
  Reach_progress s h some_thread room =
      let (t, l, low) = least (λ u. closed_by (s.threads u)) (num_threads - 1) in
      let lt : t < num_threads = omega (arith, l) in
      some-Step s t (s.threads t).phase (Reach-Valid c s h) lt (room t lt)
        (λ u a. low u (omega arith)) refl
