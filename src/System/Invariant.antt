-- ===== src/System/Invariant.antt =====
-- What holds in every state that the threads can reach, in terms of the rounds.
use dps_pos.Base.{
  ℕ, suc, ◌-◌, ◌<◌, ◌≤◌, ◌≡◌, ◌≢◌, refl, sym, ap, subst, ◌∙◌, [], ◌∷◌, some, false, length,
  get_elem?, ltb, ◌==◌, if◌then◌else◌, arith, Bool-cases, inl, inr, slice, slice_zero, slice_step,
}
use dps_pos.Period.Queue.{PrdClausesQueue}
use dps_pos.Period.Queue.Invariant.{IsQueue}
use dps_pos.Solver.Import.{Imports, Outcome, done, waits, import_queue}
use dps_pos.Solver.Import.Window.{parcels, receive, Taken, import_queue-due, import_queue-waits}
use dps_pos.System.{Setup, System, Thread, Phase, working, importing, update}
use dps_pos.System.Ring.{dist}
use dps_pos.System.Rounds.{state_at, export_at, gather}
use dps_pos.System.Publish.{open_parcel, Published}

-- The distance of the thread that is imported from next.
abbrev pub cursor : Phase → ℕ
cursor working = 1
cursor (importing i m) = i

-- How many of its sets the thread has completed.
abbrev pub closed : ℕ → Phase → ℕ
closed r working = r
closed r (importing i m) = suc r

abbrev pub closed_by : {L : Type 0} → Thread L → ℕ
closed_by th = closed th.period th.phase

-- The next period that a thread has to import from a queue whose owner is at distance `d`.
abbrev pub next_of : {L : Type 0} → ℕ → Thread L → ℕ → ℕ
next_of margin th d = (if ltb d (cursor th.phase) then suc th.period else th.period) - margin

done_waits :
    (q : PrdClausesQueue) (m : Imports)
    → ◌≢◌ {A = Outcome (PrdClausesQueue × Imports)} (done (q, m)) waits
done_waits q m e = absurd (cc)

module _ {L : Type 0} (c : Setup L) where
  open c use {num_threads, margin, work, held}

  -- A thread in its period `r`.
  abbrev pub OnCourse : ℕ → ℕ → L → Phase → Type 0
  OnCourse t r l working = l ≡ state_at c r t
  OnCourse t r l (importing i m) =
      (l ≡ (work (state_at c r t)).0)
      × (0 < i)
      × (r < margin → m ≡ held l)
      × (margin ≤ r
          → gather c (export_at c (r - margin)) t i (num_threads - i) m
            ≡ gather c (export_at c (r - margin)) t 1 (num_threads - 1) (held l))

  -- The queue of thread `u`, with `k` completed sets; `nexts` says what the other threads import next.
  pub record Holds (u k : ℕ) (nexts : ℕ → ℕ) (q : PrdClausesQueue) : Type 0 where
    pub valid : IsQueue 0 q
    pub own : get_elem? q.next_period u ≡ some 0
    pub size : length q.queue ≡ suc k
    pub posted : (p : ℕ) → p < k → get_elem? (parcels q) p ≡ some (export_at c p u)
    pub at_open : get_elem? (parcels q) k ≡ some open_parcel
    pub next : (t : ℕ) → t < num_threads → t ≢ u → get_elem? q.next_period t ≡ some (nexts t)

  pub Holds-same :
      (u k k' : ℕ) (nexts nexts' : ℕ → ℕ) (q : PrdClausesQueue)
      → k ≡ k'
      → ((t : ℕ) → t < num_threads → t ≢ u → nexts t ≡ nexts' t)
      → Holds u k nexts q
      → Holds u k' nexts' q
  Holds-same u k k' nexts nexts' q e h v = record {
    valid = v.valid;
    own = v.own;
    size = v.size ∙ ap suc e;
    posted = λ p l. v.posted p (omega (arith, e));
    at_open = subst (λ n. get_elem? (parcels q) n ≡ some open_parcel) e v.at_open;
    next = λ t l d. v.next t l d ∙ ap some (h t l d);
  }

  -- The thread's own end of a period.
  pub Holds-Published :
      (u k : ℕ) (nexts : ℕ → ℕ) (q q' : PrdClausesQueue)
      → Holds u k nexts q
      → Published k q (export_at c k u) q'
      → Holds u (suc k) nexts q'
  Holds-Published u k nexts q q' v p = record {
    valid = p.valid;
    own = rw p.same_threads v.own;
    size = p.longer ∙ ap suc v.size;
    posted = λ i h. elim (Bool-cases (ltb i k)) [
      | inl lt ↦ p.older i (ground arith) ∙ v.posted i (ground arith)
      | inr ge ↦ let e : i ≡ k = ground arith in rw e p.newest
    ];
    at_open = p.at_open;
    next = λ t l d. rw p.same_threads (v.next t l d);
  }

  -- Another thread has taken the sets up to period `r`.
  pub Holds-Taken :
      (u k t r : ℕ) (nexts nexts' : ℕ → ℕ) (q q' : PrdClausesQueue)
      → Holds u k nexts q
      → t ≢ u
      → Taken 0 t r q q'
      → nexts' t ≡ suc r
      → ((j : ℕ) → j ≢ t → nexts' j ≡ nexts j)
      → Holds u k nexts' q'
  Holds-Taken u k t r nexts nexts' q q' v d a now same = record {
    valid = a.valid;
    own = a.others u d ∙ v.own;
    size = a.as_long ∙ v.size;
    posted = λ p h. rw a.contents (v.posted p h);
    at_open = rw a.contents v.at_open;
    next = λ j l e. elim (Bool-cases (t == j)) [
      | inl is_t ↦
          let h : t ≡ j = ground arith in
          subst (λ i. get_elem? q'.next_period i ≡ some (nexts' i)) h (a.next ∙ ap some (sym now))
      | inr other ↦
          let h : t ≢ j = ground arith in
          a.others j h ∙ v.next j l e ∙ ap some (sym (same j (λ x. h (sym x))))
    ];
  }

  -- What thread `t` gets from a queue that it may import from.
  pub import_one :
      (u k t r : ℕ) (nexts : ℕ → ℕ) (q q' : PrdClausesQueue) (m m' : Imports)
      → Holds u k nexts q
      → t < num_threads
      → t ≢ u
      → nexts t ≡ r
      → import_queue (suc (length q.queue)) false t r q m ≡ done (q', m')
      → (m' ≡ receive (export_at c r u ∷ []) m) × Taken 0 t r q q'
  import_one u k t r nexts q q' m m' v l d n run =
      elim (Bool-cases (ltb (suc r) (length q.queue))) [
        | inl ready ↦
            let at : get_elem? q.next_period t ≡ some r = v.next t l d ∙ ap some n in
            let (q2, run2, taken) =
              import_queue-due 0 t r r false q m v.valid at (omega arith) (ground arith) in
            let here : get_elem? (parcels q) r ≡ some (export_at c r u) =
              v.posted r (ground (arith, v.size)) in
            let one : suc r - r ≡ 1 = omega arith in
            let from_0 : r - 0 ≡ r = omega arith in
            let got : slice (r - 0) (suc r - r) (parcels q) ≡ export_at c r u ∷ [] =
              rw (one, from_0)
                (slice_step r 0 (parcels q) _ here
                  ∙ ap (◌∷◌ (export_at c r u)) (slice_zero (suc r) (parcels q))) in
            let both : done (q', m') ≡ done (q2, receive (export_at c r u ∷ []) m) =
              sym run ∙ (rw got at run2) in
            let same_queue : q' ≡ q2 = cc in
            let same_clauses : m' ≡ receive (export_at c r u ∷ []) m = cc in
            (same_clauses, rw same_queue taken)
        | inr open_set ↦
            let at : get_elem? q.next_period t ≡ some r = v.next t l d ∙ ap some n in
            let stuck : done (q', m') ≡ waits =
              sym run ∙ import_queue-waits 0 t r r q m v.valid at (ground arith) in
            absurd (done_waits q' m' stuck)
      ]

  pub closed_update :
      (f : ℕ → Thread L) (t : ℕ) (th : Thread L) (u : ℕ)
      → (t ≡ u → closed_by (f t) ≡ closed_by th)
      → closed_by (f u) ≡ closed_by (update f t th u)
  closed_update f t th u h = elim (Bool-cases (t == u)) [
    | inl same ↦
        let e : t ≡ u = ground arith in
        rw same (subst (λ x. closed_by (f x) ≡ closed_by th) e (h e))
    | inr other ↦ rw other refl
  ]

  pub next_update :
      (f : ℕ → Thread L) (t : ℕ) (th : Thread L) (u j : ℕ)
      → (t ≡ j
          → next_of margin (f t) (dist num_threads t u) ≡ next_of margin th (dist num_threads t u))
      → next_of margin (f j) (dist num_threads j u)
        ≡ next_of margin (update f t th j) (dist num_threads j u)
  next_update f t th u j h = elim (Bool-cases (t == j)) [
    | inl same ↦
        let e : t ≡ j = ground arith in
        rw same (
          subst
            (λ x.
              next_of margin (f x) (dist num_threads x u)
              ≡ next_of margin th (dist num_threads x u))
            e (h e))
    | inr other ↦ rw other refl
  ]

  abbrev pub HoldsIn : (ℕ → Thread L) → ℕ → PrdClausesQueue → Type 0
  HoldsIn f u q = Holds u (closed_by (f u)) (λ t. next_of margin (f t) (dist num_threads t u)) q

  pub record Valid (s : System L) : Type 0 where
    pub num_queues : length s.queues ≡ num_threads
    pub queue_of :
        (u : ℕ)
        → u < num_threads
        → (q : PrdClausesQueue) × (get_elem? s.queues u ≡ some q) × HoldsIn s.threads u q
    pub on_course :
        (t : ℕ) → OnCourse t (s.threads t).period (s.threads t).local (s.threads t).phase

  -- Thread `t` changes, and a queue that it does not change holds what it did.
  pub Holds-update :
      (f : ℕ → Thread L) (t : ℕ) (th : Thread L) (u : ℕ) (q : PrdClausesQueue)
      → HoldsIn f u q
      → (t ≡ u → closed_by (f t) ≡ closed_by th)
      → (t ≢ u
          → next_of margin (f t) (dist num_threads t u) ≡ next_of margin th (dist num_threads t u))
      → HoldsIn (update f t th) u q
  Holds-update f t th u q v same_closed same_next =
      Holds-same u (closed_by (f u)) (closed_by (update f t th u))
        (λ j. next_of margin (f j) (dist num_threads j u))
        (λ j. next_of margin (update f t th j) (dist num_threads j u)) q
        (closed_update f t th u same_closed)
        (λ j l d. next_update f t th u j (λ e. same_next (subst (λ x. x ≢ u) (sym e) d))) v
