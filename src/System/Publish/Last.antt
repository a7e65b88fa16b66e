-- ===== src/System/Publish/Last.antt =====
-- The last set of a queue, read and written in place.
use dps_pos.Base.{
  ℕ, zero, suc, ◌+◌, ◌<◌, ◌≡◌, refl, sym, ap, ◌∙◌, List, [], ◌∷◌, ◌++◌, some, length, get_elem?,
  arith, ltb,
}
use dps_pos.Base.Result.{ok}
use dps_pos.Period.PrdClauses.{PrdClauses}
use dps_pos.Period.Queue.{last, set_last}
use dps_pos.Period.Queue.Invariant.{Sets}

pub last-get :
    (xs : List PrdClauses) (k : ℕ) (p : PrdClauses)
    → suc k ≡ length xs
    → get_elem? xs k ≡ some p
    → last xs ≡ ok p
unfolding last
last-get [] k p h e = absurd (omega arith)
last-get (x ∷ []) zero p h e = cc
last-get (x ∷ []) (suc k) p h e = absurd (omega arith)
last-get (x ∷ y ∷ xs) zero p h e = absurd (omega arith)
last-get (x ∷ y ∷ xs) (suc k) p h e = last-get (y ∷ xs) k p (omega arith) e

pub length-set_last : (xs : List PrdClauses) (v : PrdClauses) → length (set_last xs v) ≡ length xs
unfolding set_last
length-set_last [] v = refl
length-set_last (x ∷ []) v = refl
length-set_last (x ∷ y ∷ xs) v = ap suc (length-set_last (y ∷ xs) v)

pub get-set_last :
    (xs : List PrdClauses) (v : PrdClauses) (k : ℕ)
    → suc k ≡ length xs
    → get_elem? (set_last xs v) k ≡ some v
unfolding set_last
get-set_last [] v k h = absurd (omega arith)
get-set_last (x ∷ []) v zero h = refl
get-set_last (x ∷ []) v (suc k) h = absurd (omega arith)
get-set_last (x ∷ y ∷ xs) v zero h = absurd (omega arith)
get-set_last (x ∷ y ∷ xs) v (suc k) h = get-set_last (y ∷ xs) v k (omega arith)

pub get-set_last_lt :
    (xs : List PrdClauses) (v : PrdClauses) (i : ℕ)
    → suc i < length xs
    → get_elem? (set_last xs v) i ≡ get_elem? xs i
unfolding set_last
get-set_last_lt [] v i h = absurd (omega arith)
get-set_last_lt (x ∷ []) v i h = absurd (omega arith)
get-set_last_lt (x ∷ y ∷ xs) v zero h = refl
get-set_last_lt (x ∷ y ∷ xs) v (suc i) h = get-set_last_lt (y ∷ xs) v i (omega arith)

pub get-append_left :
    (xs ys : List PrdClauses) (i : ℕ) → i < length xs → get_elem? (xs ++ ys) i ≡ get_elem? xs i
get-append_left [] ys i h = absurd (omega arith)
get-append_left (x ∷ xs) ys zero h = refl
get-append_left (x ∷ xs) ys (suc i) h = get-append_left xs ys i (omega arith)

pub get-append_right :
    (xs ys : List PrdClauses) (i j : ℕ)
    → i ≡ length xs + j
    → get_elem? (xs ++ ys) i ≡ get_elem? ys j
get-append_right [] ys i j h = let e : i ≡ j = omega arith in ap (get_elem? ys) e
get-append_right (x ∷ xs) ys zero j h = absurd (omega arith)
get-append_right (x ∷ xs) ys (suc i) j h = get-append_right xs ys i j (omega arith)

-- The last set takes clauses, and nothing else changes.
pub Sets-set_last :
    (nexts : List ℕ) (f : ℕ) (xs : List PrdClauses) (p v : PrdClauses)
    → last xs ≡ ok p
    → v.prd ≡ p.prd
    → v.num_exported_threads ≡ p.num_exported_threads
    → v.completed ≡ p.completed
    → Sets nexts f xs
    → Sets nexts f (set_last xs v)
unfolding last set_last
Sets-set_last nexts f [] p v e a b c h = tt
Sets-set_last nexts f (x ∷ []) p v e a b c h = ground arith
Sets-set_last nexts f (x ∷ y ∷ xs) p v e a b c h = (
  h.0,
  h.1,
  h.2 ∙ ap (ltb 0) (sym (length-set_last (y ∷ xs) v)),
  Sets-set_last nexts (suc f) (y ∷ xs) p v e a b c h.3,
)
