-- ===== src/System/Publish.antt =====
-- The end of a period as the other threads see it: one more set that they can import.
pub mod Last
use dps_pos.Base.{
  ℕ, zero, suc, ◌+◌, ◌^◌, ◌<◌, ◌≤◌, ◌≡◌, refl, sym, ap, subst, ◌∙◌, List, [], ◌∷◌, ◌++◌, some, true,
  false, length, append-nil, append_assoc, u64, if◌then◌else◌, get_elem?, arith, All, length-append,
  ltb, get_elem?-map, get_elem?-lt_length,
}
use dps_pos.Base.Result.{ok, fault, ◌>>=◌}
use dps_pos.Period.PrdClauses
use dps_pos.Period.PrdClauses.{PrdClauses}
use dps_pos.Period.Queue.{PrdClausesQueue, last, set_last}
use dps_pos.Period.Queue.Invariant.{Sets, IsQueue, All-get}
use dps_pos.Period.Queue.Addition.{complete_addition-IsQueue}
use dps_pos.Solver.Import.Window.{Parcel, parcel, parcels}
use dps_pos.Period.Clause.{Clause}
use dps_pos.System.{publish, add_clauses}
use dps_pos.System.Publish.Last.{
  last-get, length-set_last, get-set_last, get-set_last_lt, get-append_left, get-append_right,
  Sets-set_last,
}

abbrev pub open_parcel : Parcel
open_parcel = record { clauses = []; prd_len = 0 }

-- What the end of period `k` does to the queue of a thread whose own next period stays 0, so that
-- no set leaves the queue.
pub record Published (k : ℕ) (q : PrdClausesQueue) (e : Parcel) (q' : PrdClausesQueue)
    : Type 0 where
  pub valid : IsQueue 0 q'
  pub longer : length q'.queue ≡ suc (length q.queue)
  pub same_threads : q'.next_period ≡ q.next_period
  pub older : (i : ℕ) → i < k → get_elem? (parcels q') i ≡ get_elem? (parcels q) i
  pub newest : get_elem? (parcels q') k ≡ some e
  pub at_open : get_elem? (parcels q') (suc k) ≡ some open_parcel

-- The sets after the call, as an append.
Published-split :
    (k : ℕ) (q : PrdClausesQueue) (e : Parcel) (p' w : PrdClauses) (q' : PrdClausesQueue)
    → suc k ≡ length q.queue
    → parcel w ≡ e
    → IsQueue 0 q'
    → q'.next_period ≡ q.next_period
    → set_last (set_last q.queue p') w ++ (PrdClauses.init q.thn (suc k) ∷ []) ≡ q'.queue
    → Published k q e q'
unfolding parcels PrdClauses.init
Published-split k q e p' w q' len new v same split =
    let n1 = length-set_last q.queue p' in
    let n2 = length-set_last (set_last q.queue p') w in
    record {
      valid = v;
      longer = omega (
        arith,
        ap length (sym split),
        n1,
        n2,
        length-append (set_last (set_last q.queue p') w) (PrdClauses.init q.thn (suc k) ∷ []),
      );
      same_threads = same;
      older = λ i h.
          let (s, at) = get_elem?-lt_length q.queue i (omega arith) in
          let at' : get_elem? q'.queue i ≡ some s =
            ap (λ xs. get_elem? xs i) (sym split)
            ∙ get-append_left (set_last (set_last q.queue p') w) _ i (omega (arith, n1, n2))
            ∙ get-set_last_lt (set_last q.queue p') w i (omega (arith, n1))
            ∙ get-set_last_lt q.queue p' i (omega arith)
            ∙ at in
          get_elem?-map parcel q'.queue i s at' ∙ sym (get_elem?-map parcel q.queue i s at);
      newest =
          get_elem?-map parcel q'.queue k w (
            ap (λ xs. get_elem? xs k) (sym split)
            ∙ get-append_left (set_last (set_last q.queue p') w) _ k (omega (arith, n1, n2))
            ∙ get-set_last (set_last q.queue p') w k (omega (arith, n1)))
          ∙ ap some new;
      at_open = get_elem?-map parcel q'.queue (suc k) (PrdClauses.init q.thn (suc k)) (
          ap (λ xs. get_elem? xs (suc k)) (sym split)
          ∙ get-append_right (set_last (set_last q.queue p') w) (PrdClauses.init q.thn (suc k) ∷ [])
              (suc k) 0 (omega (arith, n1, n2)));
    }

-- With a front at 0 nothing was dropped.
none_dropped : (ds ys zs : List PrdClauses) → zs ≡ ds ++ ys → length ys ≡ length zs → zs ≡ ys
none_dropped [] ys zs e h = e
none_dropped (d ∷ ds) ys zs e h = absurd (omega (arith, ap length e, length-append ds ys))

pub open_last :
    (nexts : List ℕ) (f : ℕ) (xs : List PrdClauses) (p : PrdClauses)
    → last xs ≡ ok p
    → Sets nexts f xs
    → p.completed ≡ false
unfolding last
open_last nexts f [] p e h = cc
open_last nexts f (x ∷ []) p e h = let (_, _, o, _) = h in ground arith
open_last nexts f (x ∷ y ∷ xs) p e h = open_last nexts (suc f) (y ∷ xs) p e h.3

add_clause-open :
    (c : Clause) (p : PrdClauses)
    → p.completed ≡ false
    → PrdClauses.add_clause p c
      ≡ ok (record p {
        clauses = p.clauses ++ (c ∷ []);
        num_literals = u64 (p.num_literals + length c);
      })
unfolding PrdClauses.add_clause
add_clause-open c p o =
    ap
      (λ b.
        if b
        then fault
        else ok (record p {
          clauses = p.clauses ++ (c ∷ []);
          num_literals = u64 (p.num_literals + length c);
        }))
      o

-- A set that takes clauses.
pub record Filled (cs : List Clause) (p p' : PrdClauses) : Type 0 where
  pub clauses : p'.clauses ≡ p.clauses ++ cs
  pub same_period : p'.prd ≡ p.prd
  pub same_exports : p'.num_exported_threads ≡ p.num_exported_threads
  pub still_open : p'.completed ≡ p.completed

pub add_clauses-Filled :
    (cs : List Clause) (p : PrdClauses)
    → p.completed ≡ false
    → (p' : PrdClauses) × (add_clauses cs p ≡ ok p') × Filled cs p p'
unfolding add_clauses
add_clauses-Filled [] p o = (
  p,
  refl,
  record {
    clauses = sym (append-nil p.clauses);
    same_period = refl;
    same_exports = refl;
    still_open = refl;
  },
)
add_clauses-Filled (c ∷ cs) p o =
    let p1 : PrdClauses = record p {
      clauses = p.clauses ++ (c ∷ []);
      num_literals = u64 (p.num_literals + length c);
    } in
    let (p', run, h) = add_clauses-Filled cs p1 o in
    (
      p',
      ap (λ x. x >>= add_clauses cs) (add_clause-open c p o) ∙ run,
      record {
        clauses = h.clauses ∙ append_assoc p.clauses (c ∷ []) cs;
        same_period = h.same_period;
        same_exports = h.same_exports;
        still_open = h.still_open;
      },
    )

pub publish_lem :
    (k u : ℕ) (q : PrdClausesQueue) (e : Parcel)
    → IsQueue 0 q
    → suc k ≡ length q.queue
    → suc k < 2 ^ 64
    → get_elem? q.next_period u ≡ some 0
    → get_elem? (parcels q) k ≡ some open_parcel
    → (q' : PrdClausesQueue) × (publish q e ≡ ok q') × Published k q e q'
unfolding publish parcels
publish_lem k u q e v len room own at_open =
    let (p, at) = get_elem?-lt_length q.queue k (omega arith) in
    let lst : last q.queue ≡ ok p = last-get q.queue k p len at in
    let bare : parcel p ≡ open_parcel =
      let both : some (parcel p) ≡ some open_parcel =
        sym (get_elem?-map parcel q.queue k p at) ∙ at_open in
      cc in
    let (p', add_run, add) =
      add_clauses-Filled e.clauses p (open_last q.next_period 0 q.queue p lst v.sets) in
    let q1 : PrdClausesQueue = record q { queue = set_last q.queue p' } in
    let n1 = length-set_last q.queue p' in
    let v1 : IsQueue 0 q1 = record {
      sets =
          Sets-set_last q.next_period 0 q.queue p p' lst add.same_period add.same_exports
            add.still_open v.sets;
      some_set = omega (arith, n1, v.some_set);
      threads = v.threads;
      kept = v.kept;
      behind = rw n1 v.behind;
      fits = omega (arith, n1, v.fits);
    } in
    let (q', run, a) = complete_addition-IsQueue 0 e.prd_len q1 v1 (omega (arith, n1)) in
    let low : a.front ≤ 0 =
      All-get _ q.next_period u 0 (subst (All (λ n. a.front ≤ n)) a.same_threads a.valid.kept)
        own in
    let zero_front : a.front ≡ 0 = omega (arith, low) in
    let back_is : a.back ≡ p' =
      let both : ok a.back ≡ ok p' =
        sym a.is_last
        ∙ last-get q1.queue k p' (omega (arith, n1)) (get-set_last q.queue p' k len) in
      cc in
    let w : PrdClauses = record a.back { completed = true; prd_len = e.prd_len } in
    let whole : set_last q1.queue w ++ (PrdClauses.init q.thn (suc k) ∷ []) ≡ q'.queue =
      none_dropped a.dropped q'.queue _
        (ap (λ m. set_last q1.queue w ++ (PrdClauses.init q.thn m ∷ [])) (omega (arith, n1))
          ∙ a.split)
        (omega (
          arith,
          a.ending,
          n1,
          zero_front,
          length-set_last q1.queue w,
          length-append (set_last q1.queue w) (PrdClauses.init q.thn (suc k) ∷ []),
        )) in
    let filled : parcel w ≡ e = rw back_is (
      ap (λ x. record { clauses = x; prd_len = e.prd_len })
        (add.clauses ∙ ap (λ x. x.clauses ++ e.clauses) bare)) in
    (
      q',
      rw lst (rw add_run run),
      Published-split k q e p' w q' len filled (subst (λ n. IsQueue n q') zero_front a.valid)
          a.same_threads whole,
    )
