-- ===== src/Period/Queue/Lookup.antt =====
-- `PrdClausesQueue::get`: the set that a thread imports next, and a thread's own set of a period.
use dps_pos.Base.{
  ℕ, zero, suc, ◌+◌, ◌-◌, ◌≤◌, ◌<◌, ◌≡◌, refl, List, [], ◌∷◌, none, some, length, get_elem?, arith,
  ltb, sym, ◌∙◌, ◌⊎◌, inl, inr, Bool-cases,
}
use dps_pos.Base.Result.{ok}
use dps_pos.Period.PrdClauses.{PrdClauses}
use dps_pos.Period.Queue.{PrdClausesQueue, nth, at_period, next_at, get_next, get}
use dps_pos.Period.Queue.Invariant.{past, Sets, IsQueue, All-get}

ltb-suc : (a b : ℕ) → ltb (suc a) (suc b) ≡ ltb a b
ltb-suc a b = ground arith

-- The set of period `p` stands at index `p - f`, and is completed unless it is the last.
pub record Found (nexts : List ℕ) (p i : ℕ) (xs : List PrdClauses) : Type 0 where
  pub here : PrdClauses
  pub at : get_elem? xs i ≡ some here
  pub period : here.prd ≡ p
  pub exported : here.num_exported_threads ≡ past p nexts
  pub done : here.completed ≡ ltb (suc i) (length xs)

pub Sets-at :
    (nexts : List ℕ) (f i p : ℕ) (xs : List PrdClauses)
    → p ≡ f + i
    → i < length xs
    → Sets nexts f xs
    → Found nexts p i xs
Sets-at nexts f i p [] k a h = absurd (omega arith)
Sets-at nexts f zero p (x ∷ xs) k a h =
    let e : p ≡ f = omega arith in
    record {
      here = x;
      at = refl;
      period = omega arith;
      exported = rw e h.1;
      done = h.2 ∙ sym (ltb-suc 0 (length xs));
    }
Sets-at nexts f (suc i) p (x ∷ xs) k a h =
    let r = Sets-at nexts (suc f) i p xs (omega arith) (omega arith) h.3 in
    record {
      here = r.here;
      at = r.at;
      period = r.period;
      exported = r.exported;
      done = r.done ∙ sym (ltb-suc (suc i) (length xs));
    }

at_period_lem :
    (nexts : List ℕ) (f p : ℕ) (xs : List PrdClauses) (s : PrdClauses)
    → f ≤ p
    → get_elem? xs (p - f) ≡ some s
    → s.prd ≡ p
    → Sets nexts f xs
    → at_period p xs ≡ ok s
unfolding at_period nth
at_period_lem nexts f p [] s a e k h = cc
at_period_lem nexts f p (x ∷ xs) s a e k h = rw (h.0) (ground (arith, e))

next_at_lem :
    (nexts : List ℕ) (f p : ℕ) (xs : List PrdClauses) (s : PrdClauses)
    → f ≤ p
    → Sets nexts f xs
    → at_period p xs ≡ ok s
    → next_at p xs ≡ ok (some s)
unfolding next_at at_period
next_at_lem nexts f p [] s a h e = cc
next_at_lem nexts f p (x ∷ xs) s a h e = rw e (ground arith)

module _ (f : ℕ) (q : PrdClausesQueue) (v : IsQueue f q) where
  open v use {sets}

  -- On a valid queue, the look-up of a thread's own set does not fail for a period that the queue
  -- holds: it gives the one set of that period, which is completed unless it is the last.
  pub get-IsQueue :
      (p : ℕ)
      → f ≤ p
      → p < f + length q.queue
      → (s : PrdClauses) × (get q p ≡ ok s)
        × (s.prd ≡ p)
        × (get_elem? q.queue (p - f) ≡ some s)
        × (s.completed ≡ ltb (suc p) (f + length q.queue))
  unfolding get
  get-IsQueue p a b =
      let r = Sets-at q.next_period f (p - f) p q.queue (omega arith) (omega arith) sets in
      (
        r.here,
        at_period_lem q.next_period f p q.queue r.here a r.at r.period sets,
        r.period,
        r.at,
        r.done ∙ ground arith,
      )

  -- On a valid queue a thread never misses a set and never gets one twice: as long as its next
  -- period `p` is at most `period` the look-up gives the set of `p`, which is still there, and
  -- after that nothing. It does not fail.
  pub get_next-IsQueue :
      (t p period : ℕ)
      → get_elem? q.next_period t ≡ some p
      → ((period < p) × (get_next q t period ≡ ok none))
        ⊎ ((s : PrdClauses) × (p ≤ period)
            × (get_next q t period ≡ ok (some s))
            × (s.prd ≡ p)
            × (get_elem? q.queue (p - f) ≡ some s)
            × (s.completed ≡ ltb (suc p) (f + length q.queue)))
  unfolding get_next get nth
  get_next-IsQueue t p period at =
      let (s, found, e, here, done) =
        get-IsQueue p (All-get _ q.next_period t p v.kept at)
          (All-get _ q.next_period t p v.behind at) in
      elim (Bool-cases (ltb period p)) [
        | inl late ↦ inl (ground arith, rw (at, nth) (rw late))
        | inr due ↦ inr (
          s,
          ground arith,
          rw (at, nth)
              (rw due (
                next_at_lem q.next_period f p q.queue s (All-get _ q.next_period t p v.kept at) sets
                  found)),
          e,
          here,
          done,
        )
      ]

  -- The next set of a thread, if that thread is due.
  pub get_next-due :
      (t p period : ℕ)
      → get_elem? q.next_period t ≡ some p
      → p ≤ period
      → (s : PrdClauses) × (get_next q t period ≡ ok (some s))
        × (s.prd ≡ p)
        × (get_elem? q.queue (p - f) ≡ some s)
        × (s.completed ≡ ltb (suc p) (f + length q.queue))
  get_next-due t p period at due = elim (get_next-IsQueue t p period at) [
    | inl (late, _) ↦ absurd (omega arith)
    | inr (s, _, found, e, here, done) ↦ (s, found, e, here, done)
  ]

  pub get_next-late :
      (t p period : ℕ)
      → get_elem? q.next_period t ≡ some p
      → period < p
      → get_next q t period ≡ ok none
  get_next-late t p period at late = elim (get_next-IsQueue t p period at) [
    | inl (_, nothing) ↦ nothing
    | inr (s, due, _, _, _, _) ↦ absurd (omega arith)
  ]
