-- ===== src/Period/Buffer.antt =====
-- DPS-src/period/ClauseBuffer.h and ClauseBuffer.cpp: the clauses that a thread has yet to export, by
-- key (the wrappers use a clause's length), and within a key in order of arrival.
--
-- `db`, an `unordered_map`, is a function from keys to the deque stored there, if any; `keys`, a
-- `std::set`, is the list of its members in ascending order.
pub mod Export
pub mod Order
pub mod Contract
mod Tests
use dps_pos.Base.{
  ℕ, zero, suc, ◌+◌, List, [], ◌∷◌, ◌++◌, Bool, true, false, ◌&&◌, Option, none, some, length, u32,
  u64, sub_u32, sub_u64, ltb, ◌==◌, if◌then◌else◌,
}
use dps_pos.Base.Result.{Result, ok, fault, ◌>>=◌}
use dps_pos.Period.Clause.{Clause}
use dps_pos.Period.PrdClauses.{PrdClauses}
use dps_pos.Period.PrdClauses

pub record ClauseBuffer : Type 0 where
  pub db : ℕ → Option (List Clause)
  pub keys : List ℕ
  pub num_clauses : ℕ
  pub num_literals : ℕ

unfoldable pub init : ClauseBuffer
init = record { db = λ k. none; keys = []; num_clauses = 0; num_literals = 0 }

-- `db[k]`: a missing key reads as an empty deque.
abbrev pub queue_at : (ℕ → Option (List Clause)) → ℕ → List Clause
queue_at db k = elim (db k) [ none ↦ [] | some cs ↦ cs ]

abbrev pub store : (ℕ → Option (List Clause)) → ℕ → Option (List Clause) → ℕ → Option (List Clause)
store db k v j = if k == j then v else db j

-- `keys.insert(val)`, which leaves a set alone that has the key.
unfoldable pub insert_key : ℕ → List ℕ → List ℕ
insert_key v [] = v ∷ []
insert_key v (k ∷ ks) =
    if ltb v k then v ∷ k ∷ ks else if v == k then k ∷ ks else k ∷ insert_key v ks

unfoldable pub add_clause : ClauseBuffer → Clause → ℕ → ClauseBuffer
unfolding insert_key
add_clause b c val = record {
  db = store b.db val (some (queue_at b.db val ++ (c ∷ [])));
  keys = insert_key val b.keys;
  num_clauses = u32 (b.num_clauses + 1);
  num_literals = u64 (b.num_literals + length c);
}

-- The local variables of `exportTo`, and the counters that it writes.
pub record Progress : Type 0 where
  pub dest : PrdClauses
  pub exported_literals : ℕ
  pub exported_clauses : ℕ
  pub num_clauses : ℕ
  pub num_literals : ℕ

-- One round of the inner loop.
unfoldable pub export_one : Progress → Clause → Result Progress
export_one g c = PrdClauses.add_clause g.dest c >>= λ d. ok (record {
  dest = d;
  exported_literals = u32 (g.exported_literals + length c);
  exported_clauses = u32 (g.exported_clauses + 1);
  num_clauses = sub_u32 g.num_clauses 1;
  num_literals = sub_u64 g.num_literals (length c);
})

-- A limit of 0 means no limit.
abbrev pub is_full : ℕ → ℕ → Bool
is_full max_lits exported = ltb 0 max_lits && ltb max_lits exported

-- The inner loop: it empties a deque from the front, or stops when the limit is passed. It gives
-- what is left of the deque, and `full`.
unfoldable pub drain : ℕ → List Clause → Progress → Result (List Clause × Bool × Progress)
unfolding export_one
drain max [] g = ok ([], false, g)
drain max (c ∷ cs) g = export_one g c >>= λ g'.
    let rest = drain max cs g' in
    if is_full max g'.exported_literals then ok (cs, true, g') else rest

-- What the outer loop does with a key that is not removed.
unfoldable pub keep_key :
    ℕ
    → Result (List ℕ × (ℕ → Option (List Clause)) × Progress)
    → Result (List ℕ × (ℕ → Option (List Clause)) × Progress)
keep_key k m = m >>= λ r. let (ks, db, g) = r in ok (k ∷ ks, db, g)

-- The outer loop, over the keys in ascending order: it stops when `full`; a key whose deque was
-- emptied is removed.
unfoldable pub export_keys :
    ℕ
    → List ℕ
    → (ℕ → Option (List Clause))
    → Progress
    → Result (List ℕ × (ℕ → Option (List Clause)) × Progress)
unfolding drain keep_key
export_keys max [] db g = ok ([], db, g)
export_keys max (k ∷ ks) db g =
    let rest = λ (db' : ℕ → Option (List Clause)) (g' : Progress). export_keys max ks db' g' in
    drain max (queue_at db k) g >>= λ r.
    let (q, full, g') = r in
    if full then ok (k ∷ ks, store db k (some q), g') else elim q [
      | [] ↦ rest (store db k none) g'
      | c ∷ cs ↦ keep_key k (rest (store db k (some (c ∷ cs))) g')
    ]

-- `exportTo`: the buffer and the destination after it, and the number of exported clauses.
unfoldable pub export_to : ClauseBuffer → PrdClauses → ℕ → Result (ClauseBuffer × PrdClauses × ℕ)
unfolding export_keys
export_to b dest max_lits =
    export_keys max_lits b.keys b.db (record {
      dest = dest;
      exported_literals = 0;
      exported_clauses = 0;
      num_clauses = b.num_clauses;
      num_literals = b.num_literals;
    })
    >>= λ r.
        let (ks, db, g) = r in
        ok (
          record { db = db; keys = ks; num_clauses = g.num_clauses; num_literals = g.num_literals },
          g.dest,
          g.exported_clauses,
        )
