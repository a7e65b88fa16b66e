-- ===== src/Period/Wait/Order.antt =====
-- Who returns, and when.
use dps_pos.Base.{
  ℕ, ◌+◌, ◌≡◌, ◌≢◌, ◌⊎◌, inl, inr, refl, sym, ap, subst, ◌∙◌, [], ◌∷◌, ◌++◌, Bool, true, false,
  ◌==◌, Bool-cases, length, u64, arith,
}
use dps_pos.Base.Result.{ok, fault}
use dps_pos.Period.Clause.{Clause}
use dps_pos.Period.PrdClauses.{PrdClauses, add_clause, complete_addition}
use dps_pos.Period.Wait.{
  Waiter, entering, asleep, woken, returned, Meeting, test_completed, broadcast, becomes, Step, add,
  complete, test, wake, return, Reach, start, later,
}

-- What a waiter is, by whether the set is completed.
Holds : Bool → Bool → Waiter → Type 0
Holds spurious completed entering = Unit
Holds spurious completed asleep = completed ≡ false
Holds spurious completed woken = (spurious ≡ true) ⊎ (completed ≡ true)
Holds spurious completed returned = (spurious ≡ true) ⊎ (completed ≡ true)

Ordered : Bool → Meeting → Type 0
Ordered spurious s = (i : ℕ) → Holds spurious s.prd_clauses.completed (s.waiters i)

same_after_add :
    (p p' : PrdClauses) (c : Clause) → add_clause p c ≡ ok p' → p'.completed ≡ p.completed
unfolding add_clause
same_after_add p p' c run = elim (Bool-cases p.completed) [
  | inl closed ↦ let bad : fault ≡ ok p' = rw closed at run in absurd (cc)
  | inr still ↦
      let r : PrdClauses = record p {
        clauses = p.clauses ++ (c ∷ []);
        num_literals = u64 (p.num_literals + length c);
        completed = false;
      } in
      let both : ok r ≡ ok p' = rw still at run in
      let e : r ≡ p' = cc in sym (ap (λ x. x.completed) e) ∙ sym still
]

completed_after : (p p' : PrdClauses) (n : ℕ) → complete_addition p n ≡ ok p' → p'.completed ≡ true
unfolding complete_addition
completed_after p p' n run = elim (Bool-cases p.completed) [
  | inl closed ↦ let bad : fault ≡ ok p' = rw closed at run in absurd (cc)
  | inr still ↦
      let r : PrdClauses = record p { completed = true; prd_len = n } in
      let both : ok r ≡ ok p' = rw still at run in
      let e : r ≡ p' = cc in sym (ap (λ x. x.completed) e)
]

broadcast-Holds : (spurious b : Bool) (w : Waiter) → b ≡ true → Holds spurious b (broadcast w)
unfolding Holds broadcast
broadcast-Holds sp b entering e = tt
broadcast-Holds sp b asleep e = inr e
broadcast-Holds sp b woken e = inr e
broadcast-Holds sp b returned e = inr e

test_completed-Holds : (spurious b : Bool) → Holds spurious b (test_completed b)
unfolding Holds test_completed
test_completed-Holds sp true = inr refl
test_completed-Holds sp false = refl

becomes-Holds :
    (spurious b : Bool) (waiters : ℕ → Waiter) (j : ℕ) (w : Waiter) (i : ℕ)
    → Holds spurious b w
    → Holds spurious b (waiters i)
    → Holds spurious b (becomes waiters j w i)
becomes-Holds sp b waiters j w i new old = elim (Bool-cases (j == i)) [
  | inl same ↦ rw same new
  | inr other ↦ rw other old
]

Step-Ordered :
    (spurious : Bool) (s s' : Meeting)
    → Ordered spurious s
    → Step spurious s s'
    → Ordered spurious s'
unfolding Ordered Holds
Step-Ordered sp s _ h (add {p = p} c run) i =
    subst (λ b. Holds sp b (s.waiters i)) (sym (same_after_add s.prd_clauses p c run)) (h i)
Step-Ordered sp s _ h (complete {p = p} n run) i =
    broadcast-Holds sp p.completed (s.waiters i) (completed_after s.prd_clauses p n run)
Step-Ordered sp s _ h (test j e) i =
    becomes-Holds sp s.prd_clauses.completed s.waiters j _ i
      (test_completed-Holds sp s.prd_clauses.completed) (h i)
Step-Ordered sp s _ h (wake j on e) i =
    becomes-Holds sp s.prd_clauses.completed s.waiters j woken i (inl on) (h i)
Step-Ordered sp s _ h (return j e) i =
    becomes-Holds sp s.prd_clauses.completed s.waiters j returned i
      (subst (Holds sp s.prd_clauses.completed) e (h j)) (h i)

Reach-Ordered :
    (spurious : Bool) (p : PrdClauses) (s : Meeting) → Reach spurious p s → Ordered spurious s
unfolding Ordered Holds
Reach-Ordered sp p _ start i = tt
Reach-Ordered sp p _ (later {s = s} h st) i = Step-Ordered sp s _ (Reach-Ordered sp p s h) st i

-- In any order of the steps: a thread does not sleep when the set is completed, so no signal is lost; and
-- if no thread wakes up without a signal, the set is completed when a thread has returned.
pub Reach-returned :
    (spurious : Bool) (p : PrdClauses) (s : Meeting) (i : ℕ)
    → Reach spurious p s
    → ((s.waiters i ≢ asleep) ⊎ (s.prd_clauses.completed ≡ false))
      × ((s.waiters i ≢ returned) ⊎ ((spurious ≡ true) ⊎ (s.prd_clauses.completed ≡ true)))
unfolding Ordered Holds
Reach-returned sp p s i h = by_waiter (s.waiters i) (Reach-Ordered sp p s h i)
  where
    by_waiter :
        (w : Waiter)
        → Holds sp s.prd_clauses.completed w
        → ((w ≢ asleep) ⊎ (s.prd_clauses.completed ≡ false))
          × ((w ≢ returned) ⊎ ((sp ≡ true) ⊎ (s.prd_clauses.completed ≡ true)))
    by_waiter entering x = (inl (λ e. cc), inl (λ e. cc))
    by_waiter asleep x = (inr x, inl (λ e. cc))
    by_waiter woken x = (inl (λ e. cc), inl (λ e. cc))
    by_waiter returned x = (inl (λ e. cc), inr x)

-- If a thread may wake up without a signal, which POSIX allows, then waiting for an open set may
-- end with the set still open: the test is made once, before the sleep, and not again.
pub Reach_early :
    (p : PrdClauses) (i : ℕ)
    → p.completed ≡ false
    → (s : Meeting) × Reach true p s × (s.waiters i ≡ returned) × (s.prd_clauses.completed ≡ false)
unfolding test_completed
Reach_early p i still =
    let self : (i == i) ≡ true = ground arith in
    let w1 = becomes (λ j. entering) i (test_completed p.completed) in
    let w2 = becomes w1 i woken in
    let at1 : w1 i ≡ asleep = rw self (rw still refl) in
    let at2 : w2 i ≡ woken = rw self refl in
    (
      record { prd_clauses = p; waiters = becomes w2 i returned },
      later (later (later start (test i refl)) (wake i refl at1)) (return i at2),
      rw self refl,
      still,
    )
