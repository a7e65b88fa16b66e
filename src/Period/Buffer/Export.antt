-- ===== src/Period/Buffer/Export.antt =====
-- `ClauseBuffer::exportTo`: which clauses leave the buffer, and in which order.
use mathlib.Core.Path.{ap₂}
use dps_pos.Base.{
  ℕ, ◌+◌, ◌≡◌, refl, sym, ap, ◌∙◌, ◌⊎◌, inl, inr, List, [], ◌∷◌, ◌++◌, Bool, true, false, Option,
  none, some, length, ◌==◌, Bool-cases, arith, append_assoc, append-nil, u32, u64, sub_u32, sub_u64,
}
use dps_pos.Base.Result.{Result, ok}
use dps_pos.Period.Clause.{Clause}
use dps_pos.Period.PrdClauses.{PrdClauses}
use dps_pos.Period.PrdClauses
use dps_pos.Period.Buffer.{queue_at, store, Progress, export_one, is_full, drain, export_keys}
use dps_pos.Period.Buffer.Order.{flat, is_key, has, IsIndexed, is_key-above, flat-store}

-- One clause has moved to the destination.
abbrev pub advance : Progress → Clause → Progress
advance g c = record {
  dest = record g.dest {
    clauses = g.dest.clauses ++ (c ∷ []);
    num_literals = u64 (g.dest.num_literals + length c);
  };
  exported_literals = u32 (g.exported_literals + length c);
  exported_clauses = u32 (g.exported_clauses + 1);
  num_clauses = sub_u32 g.num_clauses 1;
  num_literals = sub_u64 g.num_literals (length c);
}

unfoldable pub after : Progress → List Clause → Progress
after g [] = g
after g (c ∷ cs) = after (advance g c) cs

after-append : (g : Progress) (xs ys : List Clause) → after g (xs ++ ys) ≡ after (after g xs) ys
unfolding after
after-append g [] ys = refl
after-append g (c ∷ xs) ys = after-append (advance g c) xs ys

pub export_one-open :
    (g : Progress) (c : Clause) → g.dest.completed ≡ false → export_one g c ≡ ok (advance g c)
unfolding export_one PrdClauses.add_clause
export_one-open g c h = rw h

-- The limit is not passed after any clause of the list, from `e` literals on.
abbrev pub Runs : ℕ → ℕ → List Clause → Type 0
Runs max e [] = Unit
Runs max e (c ∷ cs) = (is_full max (u32 (e + length c)) ≡ false) × Runs max (u32 (e + length c)) cs

-- The limit is passed after the last clause of the list, and not before.
abbrev pub Fills : ℕ → ℕ → List Clause → Type 0
Fills max e [] = ⊥
Fills max e (c ∷ cs) =
    ((is_full max (u32 (e + length c)) ≡ true) × (cs ≡ []))
    ⊎ ((is_full max (u32 (e + length c)) ≡ false) × Fills max (u32 (e + length c)) cs)

Runs-append :
    (max : ℕ) (g : Progress) (xs ys : List Clause)
    → Runs max g.exported_literals xs
    → Runs max (after g xs).exported_literals ys
    → Runs max g.exported_literals (xs ++ ys)
unfolding after
Runs-append max g [] ys h k = k
Runs-append max g (c ∷ xs) ys h k = (h.0, Runs-append max (advance g c) xs ys h.1 k)

Fills-append :
    (max : ℕ) (g : Progress) (xs ys : List Clause)
    → Runs max g.exported_literals xs
    → Fills max (after g xs).exported_literals ys
    → Fills max g.exported_literals (xs ++ ys)
unfolding after
Fills-append max g [] ys h k = k
Fills-append max g (c ∷ xs) ys h k = inr (h.0, Fills-append max (advance g c) xs ys h.1 k)

after-open :
    (g : Progress) (xs : List Clause)
    → g.dest.completed ≡ false
    → (after g xs).dest.completed ≡ false
unfolding after
after-open g [] h = h
after-open g (c ∷ xs) h = after-open (advance g c) xs h

abbrev Ended : ℕ → ℕ → List Clause → List Clause → Bool → Type 0
Ended max e sent left full =
    ((full ≡ false) × (left ≡ []) × Runs max e sent) ⊎ ((full ≡ true) × Fills max e sent)

Ended-cons :
    (max e : ℕ) (c : Clause) (sent left : List Clause) (full : Bool)
    → is_full max (u32 (e + length c)) ≡ false
    → Ended max (u32 (e + length c)) sent left full
    → Ended max e (c ∷ sent) left full
Ended-cons max e c sent left full h (inl (f, l, r)) = inl (f, l, (h, r))
Ended-cons max e c sent left full h (inr (f, r)) = inr (f, inr (h, r))

record Drained (max : ℕ) (g : Progress) (cs : List Clause)
    (r : Result (List Clause × Bool × Progress)) : Type 0 where
  sent : List Clause
  left : List Clause
  full : Bool
  result : r ≡ ok (left, full, after g sent)
  split : cs ≡ sent ++ left
  ended : Ended max g.exported_literals sent left full

drain_lem :
    (max : ℕ) (cs : List Clause) (g : Progress)
    → g.dest.completed ≡ false
    → Drained max g cs (drain max cs g)
unfolding drain after
drain_lem max [] g h = record {
  sent = [];
  left = [];
  full = false;
  result = refl;
  split = refl;
  ended = inl (refl, refl, tt);
}
drain_lem max (c ∷ cs) g h =
    elim (Bool-cases (is_full max (u32 (g.exported_literals + length c)))) [
      | inl now ↦ rw (export_one-open g c h) (
          rw now (record {
            sent = c ∷ [];
            left = cs;
            full = true;
            result = refl;
            split = refl;
            ended = inr (refl, inl (now, refl));
          }))
      | inr later ↦
          let d = drain_lem max cs (advance g c) h in
          rw (export_one-open g c h) (
            rw later (record {
              sent = c ∷ d.sent;
              left = d.left;
              full = d.full;
              result = d.result;
              split = ap (◌∷◌ c) d.split;
              ended = Ended-cons max g.exported_literals c d.sent d.left d.full later d.ended;
            }))
    ]

-- The clauses of `sent` have left the map, in the order of its contents.
pub record Exported (max : ℕ) (g : Progress) (ks : List ℕ) (db : ℕ → Option (List Clause))
    (r : Result (List ℕ × (ℕ → Option (List Clause)) × Progress)) : Type 0 where
  pub sent : List Clause
  pub keys : List ℕ
  pub map : ℕ → Option (List Clause)
  pub result : r ≡ ok (keys, map, after g sent)
  pub split : flat ks db ≡ sent ++ flat keys map
  pub ended : ((keys ≡ []) × Runs max g.exported_literals sent) ⊎ Fills max g.exported_literals sent
  pub indexed : IsIndexed keys map

has-remove :
    (k j : ℕ) (ks : List ℕ) (db : ℕ → Option (List Clause))
    → IsIndexed (k ∷ ks) db
    → is_key j ks ≡ has (store db k none j)
unfolding is_key
has-remove k j ks db v = elim (Bool-cases (k == j)) [
  | inl here ↦ let e : k ≡ j = ground arith in rw here (rw (← e) (is_key-above k ks v.ascending.0))
  | inr other ↦ rw other (rw other at (v.domain j))
]

has-replace :
    (k j : ℕ) (cs : List Clause) (ks : List ℕ) (db : ℕ → Option (List Clause))
    → IsIndexed (k ∷ ks) db
    → is_key j (k ∷ ks) ≡ has (store db k (some cs) j)
unfolding is_key
has-replace k j cs ks db v = elim (Bool-cases (k == j)) [
  | inl here ↦ rw here
  | inr other ↦ rw other (rw other at (v.domain j))
]

remove-IsIndexed :
    (k : ℕ) (ks : List ℕ) (db : ℕ → Option (List Clause))
    → IsIndexed (k ∷ ks) db
    → IsIndexed ks (store db k none)
remove-IsIndexed k ks db v = record {
  ascending = v.ascending.1;
  domain = λ j. has-remove k j ks db v;
}

queue_at-here :
    (k : ℕ) (cs : List Clause) (db : ℕ → Option (List Clause))
    → queue_at (store db k (some cs)) k ≡ cs
queue_at-here k cs db = let e : (k == k) ≡ true = ground arith in rw (e, queue_at)

pub export_keys_lem :
    (max : ℕ) (ks : List ℕ) (db : ℕ → Option (List Clause)) (g : Progress)
    → g.dest.completed ≡ false
    → IsIndexed ks db
    → Exported max g ks db (export_keys max ks db g)
unfolding export_keys after flat
export_keys_lem max [] db g h v = record {
  sent = [];
  keys = [];
  map = db;
  result = refl;
  split = refl;
  ended = inl (refl, tt);
  indexed = v;
}
export_keys_lem max (k ∷ ks) db g h v =
    let d = drain_lem max (queue_at db k) g h in
    let r =
      export_keys_lem max ks (store db k none) (after g d.sent) (after-open g d.sent h)
        (remove-IsIndexed k ks db v) in
    elim d.ended [
      | inl (f, l, runs) ↦ rw (d.result) (
          rw (f, l)
            (record {
              sent = d.sent ++ r.sent;
              keys = r.keys;
              map = r.map;
              result = rw (after-append g d.sent r.sent) r.result;
              split =
                  ap₂ ◌++◌ (d.split ∙ rw (l, append-nil))
                    (sym (flat-store k none ks db v.ascending.0) ∙ r.split)
                  ∙ sym (append_assoc d.sent r.sent (flat r.keys r.map));
              ended = elim r.ended [
                | inl (e, more) ↦ inl (e, Runs-append max g d.sent r.sent runs more)
                | inr fills ↦ inr (Fills-append max g d.sent r.sent runs fills)
              ];
              indexed = r.indexed;
            }))
      | inr (f, fills) ↦ rw (d.result) (
          rw f (record {
            sent = d.sent;
            keys = k ∷ ks;
            map = store db k (some d.left);
            result = refl;
            split =
                ap (λ q. q ++ flat ks db) d.split
                ∙ append_assoc d.sent d.left (flat ks db)
                ∙ ap (◌++◌ d.sent) (
                    ap₂ ◌++◌ (sym (queue_at-here k d.left db))
                      (sym (flat-store k (some d.left) ks db v.ascending.0)));
            ended = inr fills;
            indexed = record {
              ascending = v.ascending;
              domain = λ j. has-replace k j d.left ks db v;
            };
          }))
    ]
