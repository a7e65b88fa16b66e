-- ===== src/Period/Buffer/Contract.antt =====
-- What `ClauseBuffer` promises: a queue of clauses ordered by key, whose counters are right.
use dps_pos.Base.{
  ℕ, ◌+◌, ◌<◌, ◌≤◌, ◌^◌, ◌≡◌, refl, sym, ap, ◌∙◌, ◌⊎◌, inl, inr, List, [], ◌∷◌, ◌++◌, Option, false,
  length, arith, append_assoc, append-nil, u32, u64, length-append,
}
use dps_pos.Base.Result.{Result, ok, ◌>>=◌}
use dps_pos.Period.Clause.{Clause, literals, literals-append}
use dps_pos.Period.PrdClauses.{PrdClauses}
use dps_pos.Period.Buffer.{ClauseBuffer, Progress, init, add_clause, export_to}
use dps_pos.Period.Buffer.Order.{
  flat, contents, upto, above, is_key, IsIndexed, add_clause-IsIndexed, contents-add_clause,
}
use dps_pos.Period.Buffer.Export.{advance, after, Runs, Fills, Exported, export_keys_lem}

-- The keys are those of the map, in ascending order, and the counters count the clauses and the
-- literals of the buffer, as far as their width goes.
pub record IsBuffer (b : ClauseBuffer) : Type 0 where
  pub indexed : IsIndexed b.keys b.db
  pub clauses : b.num_clauses ≡ u32 (length (contents b))
  pub lits : b.num_literals ≡ u64 (literals (contents b))

pub init-IsBuffer : IsBuffer init
unfolding init contents flat is_key literals
init-IsBuffer = record {
  indexed = record { ascending = tt; domain = λ j. refl };
  clauses = refl;
  lits = refl;
}

-- Adding a clause keeps the buffer well formed. The clause is put behind all clauses of its key and
-- of smaller keys, and before all others; the order of the others stays.
pub add_clause-IsBuffer :
    (b : ClauseBuffer) (c : Clause) (val : ℕ)
    → IsBuffer b
    → IsBuffer (add_clause b c val)
      × (contents (add_clause b c val)
          ≡ flat (upto val b.keys) b.db ++ (c ∷ flat (above val b.keys) b.db))
      × (contents b ≡ flat (upto val b.keys) b.db ++ flat (above val b.keys) b.db)
unfolding add_clause literals
add_clause-IsBuffer b c val v =
    let (new, old) = contents-add_clause b c val v.indexed in
    let lo = flat (upto val b.keys) b.db in
    let hi = flat (above val b.keys) b.db in
    (
      record {
        indexed = add_clause-IsIndexed b c val v.indexed;
        clauses = omega (
          arith,
          v.clauses,
          ap length old,
          ap length new,
          length-append lo hi,
          length-append lo (c ∷ hi),
        );
        lits = omega (
          arith,
          v.lits,
          ap literals old,
          ap literals new,
          literals-append lo hi,
          literals-append lo (c ∷ hi),
        );
      },
      new,
      old,
    )

after-counts :
    (g : Progress) (xs : List Clause) (m n : ℕ)
    → g.exported_clauses < 2 ^ 32
    → g.num_clauses ≡ u32 (length xs + m)
    → g.num_literals ≡ u64 (literals xs + n)
    → ((after g xs).dest.clauses ≡ g.dest.clauses ++ xs)
      × ((after g xs).exported_clauses ≡ u32 (g.exported_clauses + length xs))
      × ((after g xs).num_clauses ≡ u32 m)
      × ((after g xs).num_literals ≡ u64 n)
unfolding after literals
after-counts g [] m n h e f =
    (sym (append-nil g.dest.clauses), omega arith, omega arith, omega arith)
after-counts g (c ∷ xs) m n h e f =
    let (a, b, k, l) =
      after-counts (advance g c) xs m n (omega arith) (omega arith) (omega arith) in
    (a ∙ append_assoc g.dest.clauses (c ∷ []) xs, b ∙ omega arith, k, l)

-- Over a list of fewer than 2 ^ 32 literals the 32-bit sum is the true one.
Runs-limit :
    (max e : ℕ) (cs : List Clause)
    → e + literals cs < 2 ^ 32
    → Runs max e cs
    → (max ≡ 0) ⊎ (e ≤ max)
    → (max ≡ 0) ⊎ (e + literals cs ≤ max)
unfolding literals
Runs-limit max e [] h r l = ground arith
Runs-limit max e (c ∷ cs) h r l =
    let n : u32 (e + length c) ≡ e + length c = omega arith in
    let below : (max ≡ 0) ⊎ (e + length c ≤ max) = ground arith in
    ground (arith, Runs-limit max (e + length c) cs (omega arith) (rw n at (r.1)) below)

Fills-limit :
    (max e : ℕ) (cs : List Clause)
    → e + literals cs < 2 ^ 32
    → Fills max e cs
    → (max ≡ 0) ⊎ (e ≤ max)
    → (xs : List Clause) × (c : Clause) × (cs ≡ xs ++ (c ∷ []))
      × (0 < max)
      × (e + literals xs ≤ max)
      × (max < e + literals cs)
unfolding literals
Fills-limit max e [] h r l = absurd r
Fills-limit max e (c ∷ cs) h (inl (full, last)) l =
    ([], c, ap (◌∷◌ c) last, ground arith, ground arith, ground arith)
Fills-limit max e (c ∷ cs) h (inr (more, r)) l =
    let n : u32 (e + length c) ≡ e + length c = omega arith in
    let below : (max ≡ 0) ⊎ (e + length c ≤ max) = ground arith in
    let f = Fills-limit max (e + length c) cs (omega arith) (rw n at r) below in
    (c ∷ f.0, f.1, ap (◌∷◌ c) f.2, f.3, omega (arith, f.4), omega (arith, f.5))

-- Either the buffer is empty now, and what was sent keeps to the limit; or the last clause sent, and
-- only that, went beyond it. A limit of 0 is no limit.
abbrev pub Limited : ℕ → List Clause → ClauseBuffer → Type 0
Limited max sent b' =
    ((contents b' ≡ []) × ((max ≡ 0) ⊎ (literals sent ≤ max)))
    ⊎ ((xs : List Clause) × (c : Clause) × (sent ≡ xs ++ (c ∷ []))
        × (0 < max)
        × (literals xs ≤ max)
        × (max < literals sent))

abbrev start : ClauseBuffer → PrdClauses → Progress
start b dest = record {
  dest = dest;
  exported_literals = 0;
  exported_clauses = 0;
  num_clauses = b.num_clauses;
  num_literals = b.num_literals;
}

-- What `exportTo` makes of the end of its loop.
abbrev close :
    List ℕ × (ℕ → Option (List Clause)) × Progress → Result (ClauseBuffer × PrdClauses × ℕ)
close (ks, db, g) = ok (
  record { db = db; keys = ks; num_clauses = g.num_clauses; num_literals = g.num_literals },
  g.dest,
  g.exported_clauses,
)

abbrev Sends : ClauseBuffer → PrdClauses → ℕ → Result (ClauseBuffer × PrdClauses × ℕ) → Type 0
Sends b dest max r =
    (sent : List Clause) × (b' : ClauseBuffer) × (dest' : PrdClauses) × (r
      ≡ ok (b', dest', u32 (length sent)))
    × (contents b ≡ sent ++ contents b')
    × (dest'.clauses ≡ dest.clauses ++ sent)
    × Limited max sent b'
    × IsBuffer b'

finish :
    (b : ClauseBuffer) (dest : PrdClauses) (max : ℕ)
    → IsBuffer b
    → literals (contents b) < 2 ^ 32
    → (r : Result (List ℕ × (ℕ → Option (List Clause)) × Progress))
    → Exported max (start b dest) b.keys b.db r
    → Sends b dest max (r >>= close)
unfolding contents flat
finish b dest max v small r x =
    let rest = flat x.keys x.map in
    let fewer : 0 + literals x.sent < 2 ^ 32 =
      omega (arith, small, ap literals x.split, literals-append x.sent rest) in
    let (a, n, k, l) =
      after-counts (start b dest) x.sent (length rest) (literals rest) (omega arith)
        (omega (arith, v.clauses, ap length x.split, length-append x.sent rest))
        (omega (arith, v.lits, ap literals x.split, literals-append x.sent rest)) in
    let count : (after (start b dest) x.sent).exported_clauses ≡ u32 (length x.sent) =
      n ∙ omega arith in
    (
      x.sent,
      record {
        db = x.map;
        keys = x.keys;
        num_clauses = (after (start b dest) x.sent).num_clauses;
        num_literals = (after (start b dest) x.sent).num_literals;
      },
      (after (start b dest) x.sent).dest,
      rw x.result (rw count),
      x.split,
      a,
      elim x.ended [
        | inl (e, r) ↦
            inl (rw e, ground (arith, Runs-limit max 0 x.sent fewer r (inr (omega arith))))
        | inr r ↦
            let f = Fills-limit max 0 x.sent fewer r (inr (omega arith)) in
            inr (f.0, f.1, f.2, f.3, omega (arith, f.4), omega (arith, f.5))
      ],
      record { indexed = x.indexed; clauses = k; lits = l },
    )

-- Exporting takes clauses off the front of the buffer's contents, in their order, and appends them to
-- the set, as long as the limit on literals has not been passed; it never fails on a set that is
-- open, keeps the buffer well formed, and returns the number of clauses sent. The buffer holds
-- fewer than 2 ^ 32 literals.
pub export_to-IsBuffer :
    (b : ClauseBuffer) (dest : PrdClauses) (max : ℕ)
    → IsBuffer b
    → dest.completed ≡ false
    → literals (contents b) < 2 ^ 32
    → (sent : List Clause) × (b' : ClauseBuffer) × (dest' : PrdClauses) × (export_to b dest max
        ≡ ok (b', dest', u32 (length sent)))
      × (contents b ≡ sent ++ contents b')
      × (dest'.clauses ≡ dest.clauses ++ sent)
      × Limited max sent b'
      × IsBuffer b'
unfolding export_to contents flat
export_to-IsBuffer b dest max v h small =
    finish b dest max v small _ (export_keys_lem max b.keys b.db (start b dest) h v.indexed)
