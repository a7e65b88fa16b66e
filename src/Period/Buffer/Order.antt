-- ===== src/Period/Buffer/Order.antt =====
-- The buffer seen as one list of clauses, in the order in which they are to be exported.
use dps_pos.Base.{
  ℕ, ◌<◌, ◌≡◌, refl, sym, ap, subst, ◌∙◌, List, [], ◌∷◌, ◌++◌, Bool, true, false, ◌||◌, Option,
  none, some, ltb, ◌==◌, if◌then◌else◌, All, All-imp, Bool-cases, inl, inr, arith, append_assoc,
  append-nil,
}
use mathlib.Core.Path.{ap₂}
use dps_pos.Period.Clause.{Clause}
use dps_pos.Period.Buffer.{ClauseBuffer, queue_at, store, insert_key, add_clause}

-- The deques of `ks`, one behind the other.
unfoldable pub flat : List ℕ → (ℕ → Option (List Clause)) → List Clause
flat [] db = []
flat (k ∷ ks) db = queue_at db k ++ flat ks db

unfoldable pub contents : ClauseBuffer → List Clause
contents b = flat b.keys b.db

abbrev pub Ascending : List ℕ → Type 0
Ascending [] = Unit
Ascending (k ∷ ks) = All (λ j. k < j) ks × Ascending ks

unfoldable pub is_key : ℕ → List ℕ → Bool
is_key j [] = false
is_key j (k ∷ ks) = (k == j) || is_key j ks

abbrev pub has {ℓ} : {A : Type ℓ} → Option A → Bool
has none = false
has (some a) = true

-- The keys are those of the map, in ascending order.
pub record IsIndexed (ks : List ℕ) (db : ℕ → Option (List Clause)) : Type 0 where
  pub ascending : Ascending ks
  pub domain : (j : ℕ) → is_key j ks ≡ has (db j)

pub is_key-above : (j : ℕ) (ks : List ℕ) → All (λ i. j < i) ks → is_key j ks ≡ false
unfolding is_key
is_key-above j [] h = refl
is_key-above j (k ∷ ks) h = ground (arith, is_key-above j ks h.1)

pub queue_at-store_ne :
    (db : ℕ → Option (List Clause)) (v k : ℕ) (w : Option (List Clause))
    → (v == k) ≡ false
    → queue_at (store db v w) k ≡ queue_at db k
queue_at-store_ne db v k w h = rw (h, queue_at)

pub flat-store :
    (k : ℕ) (v : Option (List Clause)) (ks : List ℕ) (db : ℕ → Option (List Clause))
    → All (λ j. k < j) ks
    → flat ks (store db k v) ≡ flat ks db
unfolding flat
flat-store k v [] db h = refl
flat-store k v (j ∷ ks) db h =
    ap₂ ◌++◌ (queue_at-store_ne db k j v (ground arith)) (flat-store k v ks db h.1)

-- The keys up to `v`, and those above it.
pub upto : ℕ → List ℕ → List ℕ
upto v [] = []
upto v (k ∷ ks) = if ltb v k then upto v ks else k ∷ upto v ks

pub above : ℕ → List ℕ → List ℕ
above v [] = []
above v (k ∷ ks) = if ltb v k then k ∷ above v ks else above v ks

All-above : (v : ℕ) (ks : List ℕ) → All (λ j. v < j) ks → (upto v ks ≡ []) × (above v ks ≡ ks)
unfolding upto above
All-above v [] h = (refl, refl)
All-above v (k ∷ ks) h = let (a, b) = All-above v ks h.1 in (ground arith, ground arith)

flat-split :
    (v : ℕ) (ks : List ℕ) (db : ℕ → Option (List Clause))
    → Ascending ks
    → flat ks db ≡ flat (upto v ks) db ++ flat (above v ks) db
unfolding flat upto above
flat-split v [] db h = refl
flat-split v (k ∷ ks) db h = elim (Bool-cases (ltb v k)) [
  | inl up ↦ let (a, b) = All-above v ks (All-imp (λ j l. ground arith) ks h.0) in rw (up, a, b)
  | inr down ↦ rw (down, flat-split v ks db h.1, append_assoc)
]

module _ (db : ℕ → Option (List Clause)) (v : ℕ) where
  queue_at-store_self : (w : List Clause) → queue_at (store db v (some w)) v ≡ w
  queue_at-store_self w = let e : (v == v) ≡ true = ground arith in rw (e, queue_at)

  -- One more clause at the end of the first deque.
  flat-store_head :
      (c : Clause) (k : ℕ) (ks : List ℕ)
      → v ≡ k
      → All (λ j. v < j) ks
      → flat (k ∷ ks) (store db v (some (queue_at db v ++ (c ∷ []))))
        ≡ queue_at db k ++ (c ∷ flat ks db)
  unfolding flat
  flat-store_head c k ks e h =
      ap₂ ◌++◌
        (subst
          (λ j.
            queue_at (store db v (some (queue_at db v ++ (c ∷ [])))) j ≡ queue_at db j ++ (c ∷ []))
          e (queue_at-store_self _))
        (flat-store v (some (queue_at db v ++ (c ∷ []))) ks db h)
      ∙ append_assoc (queue_at db k) (c ∷ []) (flat ks db)

flat-insert :
    (v : ℕ) (c : Clause) (ks : List ℕ) (db : ℕ → Option (List Clause))
    → Ascending ks
    → (is_key v ks ≡ false → queue_at db v ≡ [])
    → flat (insert_key v ks) (store db v (some (queue_at db v ++ (c ∷ []))))
      ≡ flat (upto v ks) db ++ (c ∷ flat (above v ks) db)
unfolding flat upto above insert_key is_key
flat-insert v c [] db h m = flat-store_head db v c v [] refl tt ∙ ap (λ q. q ++ (c ∷ [])) (m refl)
flat-insert v c (k ∷ ks) db h m = elim (Bool-cases (ltb v k)) [
  | inl up ↦
      let higher : All (λ j. v < j) (k ∷ ks) =
        (ground arith, All-imp (λ j l. ground arith) ks h.0) in
      let (a, b) = All-above v ks higher.1 in
      rw (up, a, b)
        (flat-store_head db v c v (k ∷ ks) refl higher
          ∙ ap (λ q. q ++ (c ∷ flat (k ∷ ks) db)) (m (is_key-above v (k ∷ ks) higher)))
  | inr down ↦ elim (Bool-cases (v == k)) [
    | inl here ↦
        let higher : All (λ j. v < j) ks = All-imp (λ j l. ground arith) ks h.0 in
        let (a, b) = All-above v ks higher in
        rw (down, here, a, b, append-nil) (flat-store_head db v c k ks (ground arith) higher)
    | inr later ↦
        rw (down, later)
          (ap₂ ◌++◌ (queue_at-store_ne db v k _ later)
              (flat-insert v c ks db h.1 (λ e. m (ground (arith, e))))
            ∙ sym (append_assoc (queue_at db k) (flat (upto v ks) db) (c ∷ flat (above v ks) db)))
  ]
]

is_key-insert_key : (v j : ℕ) (ks : List ℕ) → is_key j (insert_key v ks) ≡ ((v == j) || is_key j ks)
unfolding is_key insert_key
is_key-insert_key v j [] = ground arith
is_key-insert_key v j (k ∷ ks) = ground (arith, is_key-insert_key v j ks)

All-insert_key :
    (i v : ℕ) (ks : List ℕ) → i < v → All (λ j. i < j) ks → All (λ j. i < j) (insert_key v ks)
unfolding insert_key
All-insert_key i v [] l h = (l, tt)
All-insert_key i v (k ∷ ks) l h = ground (arith, All-insert_key i v ks l h.1)

Ascending-insert_key : (v : ℕ) (ks : List ℕ) → Ascending ks → Ascending (insert_key v ks)
unfolding insert_key
Ascending-insert_key v [] h = (tt, tt)
Ascending-insert_key v (k ∷ ks) h = elim (Bool-cases (ltb v k)) [
  | inl up ↦ rw up ((ground arith, All-imp (λ j l. ground arith) ks h.0), h)
  | inr down ↦ elim (Bool-cases (v == k)) [
    | inl here ↦ rw (down, here) h
    | inr later ↦
        rw (down, later) (All-insert_key k v ks (ground arith) h.0, Ascending-insert_key v ks h.1)
  ]
]

pub add_clause-IsIndexed :
    (b : ClauseBuffer) (c : Clause) (val : ℕ)
    → IsIndexed b.keys b.db
    → IsIndexed (add_clause b c val).keys (add_clause b c val).db
unfolding add_clause
add_clause-IsIndexed b c val v = record {
  ascending = Ascending-insert_key val b.keys v.ascending;
  domain = λ j. is_key-insert_key val j b.keys ∙ ground (arith, v.domain j);
}

-- A new clause is put between the clauses of the keys up to `val` and those of the keys above it.
pub contents-add_clause :
    (b : ClauseBuffer) (c : Clause) (val : ℕ)
    → IsIndexed b.keys b.db
    → (contents (add_clause b c val)
        ≡ flat (upto val b.keys) b.db ++ (c ∷ flat (above val b.keys) b.db))
      × (contents b ≡ flat (upto val b.keys) b.db ++ flat (above val b.keys) b.db)
unfolding contents add_clause
contents-add_clause b c val v = (
  flat-insert val c b.keys b.db v.ascending (λ e. ground (arith, v.domain val)),
  flat-split val b.keys b.db v.ascending,
)
