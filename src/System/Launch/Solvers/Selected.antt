-- ===== src/System/Launch/Solvers/Selected.antt =====
-- What `exportTo` takes out of the buffer does not depend on the set that it goes to.
use dps_pos.Base.{
  ℕ, ◌+◌, ◌≡◌, refl, ap, ◌∙◌, List, [], ◌∷◌, ◌++◌, Bool, true, false, Option, none, some, length,
  u64, Bool-cases, inl, inr,
}
use mathlib.Core.Path.{fun_ext}
use dps_pos.Base.Result.{Result, ok, fault, ◌>>=◌}
use dps_pos.Period.Clause.{Clause}
use dps_pos.Period.PrdClauses.{PrdClauses}
use dps_pos.Period.PrdClauses
use dps_pos.Period.Buffer.{
  ClauseBuffer, queue_at, store, Progress, is_full, drain, keep_key, export_keys, export_to,
}
use dps_pos.Period.Buffer.Export.{advance, export_one-open}
use dps_pos.System.{add_clauses}

abbrev onto : PrdClauses → Progress → Progress
onto d g = record g { dest = d }

-- The set `d` becomes `d'` as it takes the clauses `xs`.
pub record Grows (xs : List Clause) (d d' : PrdClauses) : Type 0 where
  pub grown : add_clauses xs d ≡ ok d'
  pub still_open : d'.completed ≡ false

bind_assoc {ℓ κ μ} :
    {A : Type ℓ} {B : Type κ} {C : Type μ} (r : Result A) (f : A → Result B) (g : B → Result C)
    → (r >>= λ a. f a >>= g) ≡ (r >>= f >>= g)
bind_assoc (ok a) f g = refl
bind_assoc fault f g = refl

add_clauses-append :
    (xs ys : List Clause) (d : PrdClauses)
    → add_clauses (xs ++ ys) d ≡ (add_clauses xs d >>= add_clauses ys)
unfolding add_clauses
add_clauses-append [] ys d = refl
add_clauses-append (x ∷ xs) ys d =
    ap (◌>>=◌ (PrdClauses.add_clause d x)) (fun_ext (add_clauses-append xs ys))
    ∙ bind_assoc (PrdClauses.add_clause d x) (add_clauses xs) (add_clauses ys)

Grows-append :
    (xs ys : List Clause) (d d' d'' : PrdClauses)
    → Grows xs d d'
    → Grows ys d' d''
    → Grows (xs ++ ys) d d''
Grows-append xs ys d d' d'' g h = record {
  grown = add_clauses-append xs ys d ∙ ap (λ r. r >>= add_clauses ys) g.grown ∙ h.grown;
  still_open = h.still_open;
}

abbrev with_one : PrdClauses → Clause → PrdClauses
with_one d c = record d {
  clauses = d.clauses ++ (c ∷ []);
  num_literals = u64 (d.num_literals + length c);
}

Grows-one : (c : Clause) (d : PrdClauses) → d.completed ≡ false → Grows (c ∷ []) d (with_one d c)
unfolding add_clauses PrdClauses.add_clause
Grows-one c d o = record { grown = rw o refl; still_open = o }

-- The inner loop.
drain-Grows :
    (max : ℕ) (cs : List Clause) (g : Progress)
    → (xs : List Clause) × (left : List Clause) × (full : Bool) × (g' : Progress)
      × ((d : PrdClauses)
          → d.completed ≡ false
          → (d' : PrdClauses) × Grows xs d d'
            × (drain max cs (onto d g) ≡ ok (left, full, onto d' g')))
unfolding drain add_clauses
drain-Grows max [] g = ([], [], false, g, λ d o. (d, record { grown = refl; still_open = o }, refl))
drain-Grows max (c ∷ cs) g =
    let g1 = advance g c in
    elim (Bool-cases (is_full max g1.exported_literals)) [
      | inl full ↦ (
        c ∷ [],
        cs,
        true,
        g1,
        λ d o. (with_one d c, Grows-one c d o, rw (export_one-open (onto d g) c o) (rw full refl)),
      )
      | inr more ↦
          let (xs, left, full, g', h) = drain-Grows max cs g1 in
          (
            c ∷ xs,
            left,
            full,
            g',
            λ d o.
                let (d', gr, run) = h (with_one d c) o in
                (
                  d',
                  Grows-append (c ∷ []) xs d (with_one d c) d' (Grows-one c d o) gr,
                  rw (export_one-open (onto d g) c o) (rw more run),
                ),
          )
    ]

keep_key_ok :
    (k : ℕ) (ks : List ℕ) (db : ℕ → Option (List Clause)) (g : Progress)
    → keep_key k (ok (ks, db, g)) ≡ ok (k ∷ ks, db, g)
unfolding keep_key
keep_key_ok k ks db g = refl

-- What the outer loop does to any set that is open.
abbrev Moves : ℕ → List ℕ → (ℕ → Option (List Clause)) → Progress → Type 0
Moves max ks db g =
    (xs : List Clause) × (left : List ℕ) × (db' : ℕ → Option (List Clause)) × (g' : Progress)
    × ((d : PrdClauses)
        → d.completed ≡ false
        → (d' : PrdClauses) × Grows xs d d'
          × (export_keys max ks db (onto d g) ≡ ok (left, db', onto d' g')))

-- A key after its deque has been gone through.
after_key :
    (max k : ℕ) (ks : List ℕ) (db : ℕ → Option (List Clause)) (g g1 : Progress) (xs q : List Clause)
    (full : Bool)
    → ((db' : ℕ → Option (List Clause)) (g' : Progress) → Moves max ks db' g')
    → ((d : PrdClauses)
        → d.completed ≡ false
        → (d' : PrdClauses) × Grows xs d d'
          × (drain max (queue_at db k) (onto d g) ≡ ok (q, full, onto d' g1)))
    → Moves max (k ∷ ks) db g
unfolding export_keys
after_key max k ks db g g1 xs q true rest h =
    (xs, k ∷ ks, store db k (some q), g1, λ d o. let (d', gr, run) = h d o in (d', gr, rw run refl))
after_key max k ks db g g1 xs [] false rest h =
    let (ys, left, db', g', h2) = rest (store db k none) g1 in
    (
      xs ++ ys,
      left,
      db',
      g',
      λ d o.
          let (d1, gr1, run1) = h d o in
          let (d2, gr2, run2) = h2 d1 gr1.still_open in
          (d2, Grows-append xs ys d d1 d2 gr1 gr2, rw run1 run2),
    )
after_key max k ks db g g1 xs (c ∷ cs) false rest h =
    let (ys, left, db', g', h2) = rest (store db k (some (c ∷ cs))) g1 in
    (
      xs ++ ys,
      k ∷ left,
      db',
      g',
      λ d o.
          let (d1, gr1, run1) = h d o in
          let (d2, gr2, run2) = h2 d1 gr1.still_open in
          (
            d2,
            Grows-append xs ys d d1 d2 gr1 gr2,
            rw run1 (ap (keep_key k) run2 ∙ keep_key_ok k left db' (onto d2 g')),
          ),
    )

-- The outer loop.
export_keys-Moves :
    (max : ℕ) (ks : List ℕ) (db : ℕ → Option (List Clause)) (g : Progress) → Moves max ks db g
unfolding export_keys add_clauses
export_keys-Moves max [] db g =
    ([], [], db, g, λ d o. (d, record { grown = refl; still_open = o }, refl))
export_keys-Moves max (k ∷ ks) db g =
    let (xs, q, full, g1, h) = drain-Grows max (queue_at db k) g in
    after_key max k ks db g g1 xs q full (λ db' g'. export_keys-Moves max ks db' g') h

pub export_to-Grows :
    (b : ClauseBuffer) (max : ℕ)
    → (xs : List Clause) × (b' : ClauseBuffer) × (n : ℕ) × ((d : PrdClauses)
        → d.completed ≡ false
        → (d' : PrdClauses) × Grows xs d d' × (export_to b d max ≡ ok (b', d', n)))
unfolding export_to
export_to-Grows b max =
    let g : Progress = record {
      dest = PrdClauses.init 0 0;
      exported_literals = 0;
      exported_clauses = 0;
      num_clauses = b.num_clauses;
      num_literals = b.num_literals;
    } in
    let (xs, ks, db, g', h) = export_keys-Moves max b.keys b.db g in
    (
      xs,
      record { db = db; keys = ks; num_clauses = g'.num_clauses; num_literals = g'.num_literals },
      g'.exported_clauses,
      λ d o. let (d', gr, run) = h d o in (d', gr, rw run refl),
    )
