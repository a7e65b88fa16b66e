-- ===== src/Period/Queue/Addition.antt =====
-- `PrdClausesQueue::completeAddtion`: the period of a thread ends.
use dps_pos.Base.{
  ℕ, suc, ◌+◌, ◌≤◌, ◌<◌, ◌^◌, ◌≡◌, refl, sym, ap, subst, get_elem?, inl, inr, List, [], ◌∷◌, ◌++◌,
  Bool, true, false, some, length, All, arith, ltb, ◌==◌, Bool-cases, u64, All-imp,
}
use dps_pos.Base.Result.{ok}
use dps_pos.Period.PrdClauses
use dps_pos.Period.PrdClauses.{PrdClauses}
use dps_pos.Period.Queue.{PrdClausesQueue, last, set_last, remove_exported, complete_addition}
use dps_pos.Period.Queue.Invariant.{Sets, IsQueue, past-All, past_none, All-get}

-- The queue's last set, and the queue `m` periods long in all, after that set was completed and a new
-- one was added.
abbrev extended : ℕ → ℕ → ℕ → List PrdClauses → PrdClauses → List PrdClauses
extended len thn m xs back =
    set_last xs (record back { completed = true; prd_len = len }) ++ (PrdClauses.init thn m ∷ [])

record Completed (nexts : List ℕ) (f len thn m : ℕ) (xs : List PrdClauses) : Type 0 where
  back : PrdClauses
  is_last : last xs ≡ ok back
  at_end : suc back.prd ≡ m
  is_open : back.completed ≡ false
  longer : length (extended len thn m xs back) ≡ suc (length xs)
  grown : Sets nexts f (extended len thn m xs back)

one_more : (n k : ℕ) (b : Bool) → b ≡ ltb 0 (suc k) → n ≡ suc (suc k) → b ≡ ltb 0 n
one_more n k b h e = ground arith

Sets-Completed :
    (nexts : List ℕ) (len thn m f : ℕ) (xs : List PrdClauses)
    → 0 < length xs
    → m ≡ f + length xs
    → All (λ n. n < m) nexts
    → Sets nexts f xs
    → Completed nexts f len thn m xs
unfolding last set_last PrdClauses.init
Sets-Completed nexts len thn m f [] z e b h = absurd (omega arith)
Sets-Completed nexts len thn m f (p ∷ []) z e b h = record {
  back = p;
  is_last = refl;
  at_end = omega arith;
  is_open = h.2;
  longer = refl;
  grown = (
    h.0,
    h.1,
    refl,
    (omega arith, sym (past_none (suc f) nexts (All-imp (λ n k. omega arith) nexts b)), refl, tt),
  );
}
Sets-Completed nexts len thn m f (p ∷ q ∷ ps) z e b h =
    let r = Sets-Completed nexts len thn m (suc f) (q ∷ ps) (omega arith) (omega arith) b h.3 in
    record {
      back = r.back;
      is_last = r.is_last;
      at_end = r.at_end;
      is_open = r.is_open;
      longer = ap suc r.longer;
      grown = (h.0, h.1, one_more _ (length ps) p.completed h.2 r.longer, r.grown);
    }

-- `ys` is what is left of `xs` when sets are taken off its front that all threads have imported; no
-- thread has to import any of them again.
pub record Removed (nexts : List ℕ) (f : ℕ) (xs ys : List PrdClauses) : Type 0 where
  pub front : ℕ
  pub dropped : List PrdClauses
  pub split : xs ≡ dropped ++ ys
  pub later : f ≤ front
  pub ending : front + length ys ≡ f + length xs
  pub left : 0 < length ys
  pub sets : Sets nexts front ys
  pub kept : All (λ k. front ≤ k) nexts

Sets-Removed :
    (nexts : List ℕ) (n f : ℕ) (xs : List PrdClauses)
    → 0 < length xs
    → length nexts ≡ n
    → All (λ k. f ≤ k) nexts
    → Sets nexts f xs
    → Removed nexts f xs (remove_exported n xs)
unfolding remove_exported
Sets-Removed nexts n f [] z t k h = absurd (omega arith)
Sets-Removed nexts n f (p ∷ []) z t k h = record {
  front = f;
  later = omega arith;
  dropped = [];
  split = refl;
  ending = refl;
  left = omega arith;
  sets = h;
  kept = k;
}
Sets-Removed nexts n f (p ∷ q ∷ ps) z t k h = elim (Bool-cases (p.num_exported_threads == n)) [
  | inl all ↦
      let r =
        Sets-Removed nexts n (suc f) (q ∷ ps) (omega arith) t (past-All f nexts (ground arith))
          h.3 in
      rw all (record {
        front = r.front;
        dropped = p ∷ r.dropped;
        split = ap (◌∷◌ p) r.split;
        later = omega (arith, r.later);
        ending = omega (arith, r.ending);
        left = r.left;
        sets = r.sets;
        kept = r.kept;
      })
  | inr some_wait ↦ rw some_wait (record {
    front = f;
    dropped = [];
    split = refl;
    later = omega arith;
    ending = refl;
    left = omega arith;
    sets = h;
    kept = k;
  })
]

-- What the call does to a queue: the set that was being filled, `back`, is completed with the
-- period length; a new set is added; and all that leaves the queue leaves it at the front.
pub record Addition (f len : ℕ) (q q' : PrdClausesQueue) : Type 0 where
  pub front : ℕ
  pub back : PrdClauses
  pub dropped : List PrdClauses
  pub is_last : last q.queue ≡ ok back
  pub split :
      set_last q.queue (record back { completed = true; prd_len = len })
        ++ (PrdClauses.init q.thn (f + length q.queue) ∷ [])
      ≡ dropped ++ q'.queue
  pub later : f ≤ front
  pub ending : front + length q'.queue ≡ suc (f + length q.queue)
  pub same_threads : q'.next_period ≡ q.next_period
  pub valid : IsQueue front q'

finish :
    (f len : ℕ) (q : PrdClausesQueue)
    → IsQueue f q
    → f + length q.queue < 2 ^ 64
    → (c : Completed q.next_period f len q.thn (f + length q.queue) q.queue)
    → (q' : PrdClausesQueue) × (complete_addition q len ≡ ok q') × Addition f len q q'
unfolding complete_addition PrdClauses.complete_addition
finish f len q v room c =
    let r =
      Sets-Removed q.next_period q.num_threads f
        (extended len q.thn (f + length q.queue) q.queue c.back) (omega (arith, c.longer)) v.threads
        v.kept c.grown in
    let e : u64 (c.back.prd + 1) ≡ f + length q.queue = omega (arith, c.at_end, room) in
    (
      record q {
        queue =
            remove_exported q.num_threads (extended len q.thn (f + length q.queue) q.queue c.back);
      },
      rw (c.is_last, complete_addition) (rw (c.is_open, e)),
      record {
        front = r.front;
        back = c.back;
        dropped = r.dropped;
        is_last = c.is_last;
        split = r.split;
        later = r.later;
        ending = omega (arith, r.ending, c.longer);
        same_threads = refl;
        valid = record {
          sets = r.sets;
          some_set = r.left;
          threads = v.threads;
          kept = r.kept;
          behind = All-imp (λ n k. omega (arith, r.ending, c.longer)) _ v.behind;
          fits = omega (arith, r.ending, c.longer);
        };
      },
    )

-- Completing a period never fails on a valid queue with a period number to spare, and gives a valid
-- queue: the current set is completed and a new set follows it; only sets that every thread has
-- imported are dropped, from the front, and no other set changes.
pub complete_addition-IsQueue :
    (f len : ℕ) (q : PrdClausesQueue)
    → IsQueue f q
    → f + length q.queue < 2 ^ 64
    → (q' : PrdClausesQueue) × (complete_addition q len ≡ ok q') × Addition f len q q'
complete_addition-IsQueue f len q v room =
    finish f len q v room
      (Sets-Completed q.next_period len q.thn _ f q.queue v.some_set refl v.behind v.sets)

-- While one thread has still to import the oldest set, ending a period removes nothing: the queue is
-- longer by one set.
pub complete_addition-waiting :
    (f len t : ℕ) (q : PrdClausesQueue)
    → IsQueue f q
    → f + length q.queue < 2 ^ 64
    → get_elem? q.next_period t ≡ some f
    → (q' : PrdClausesQueue) × (complete_addition q len ≡ ok q')
      × IsQueue f q'
      × (length q'.queue ≡ suc (length q.queue))
      × (get_elem? q'.next_period t ≡ some f)
complete_addition-waiting f len t q v room at =
    let (q', run, a) = complete_addition-IsQueue f len q v room in
    let low : a.front ≤ f =
      All-get _ q.next_period t f (subst (All (λ n. a.front ≤ n)) a.same_threads a.valid.kept) at in
    let back_at : a.front ≡ f = omega (arith, low, a.later) in
    (
      q',
      run,
      subst (λ k. IsQueue k q') back_at a.valid,
      omega (arith, a.ending, back_at),
      rw a.same_threads at,
    )
