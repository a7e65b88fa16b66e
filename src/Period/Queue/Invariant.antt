-- ===== src/Period/Queue/Invariant.antt =====
-- What holds of a queue of sets between two method calls.
use dps_pos.Base.{
  ℕ, zero, suc, ◌+◌, ◌≤◌, ◌<◌, ◌^◌, ◌≡◌, refl, sym, subst, List, [], ◌∷◌, some, length, get_elem?,
  set, replicate, All, arith, ltb, if◌then◌else◌, length-replicate,
}
use dps_pos.Period.PrdClauses
use dps_pos.Period.PrdClauses.{PrdClauses}
use dps_pos.Period.Queue.{PrdClausesQueue, init}

-- How many threads have the period behind them.
unfoldable pub past : ℕ → List ℕ → ℕ
past p [] = 0
past p (n ∷ ns) = (if ltb p n then 1 else 0) + past p ns

-- The periods are consecutive from `f`; all sets but the last are completed; a set has been exported
-- to exactly the threads whose next period lies after it.
abbrev pub Sets : List ℕ → ℕ → List PrdClauses → Type 0
Sets nexts f [] = Unit
Sets nexts f (p ∷ ps) =
    (p.prd ≡ f)
    × (p.num_exported_threads ≡ past f nexts)
    × (p.completed ≡ ltb 0 (length ps))
    × Sets nexts (suc f) ps

-- `f` is the period of the front. No thread still has to import an older set, and none has
-- imported the set that is being filled.
pub record IsQueue (f : ℕ) (q : PrdClausesQueue) : Type 0 where
  pub sets : Sets q.next_period f q.queue
  pub some_set : 0 < length q.queue
  pub threads : length q.next_period ≡ q.num_threads
  pub kept : All (λ n. f ≤ n) q.next_period
  pub behind : All (λ n. n < f + length q.queue) q.next_period
  pub fits : f + length q.queue ≤ 2 ^ 64

pub past-le : (p : ℕ) (ns : List ℕ) → past p ns ≤ length ns
unfolding past
past-le p [] = omega arith
past-le p (n ∷ ns) = ground (arith, past-le p ns)

-- A period that all threads have behind them.
pub past-All : (p : ℕ) (ns : List ℕ) → past p ns ≡ length ns → All (λ n. suc p ≤ n) ns
unfolding past
past-All p [] h = tt
past-All p (n ∷ ns) h = (ground (arith, past-le p ns), past-All p ns (ground (arith, past-le p ns)))

pub past_none : (p : ℕ) (ns : List ℕ) → All (λ n. n < suc p) ns → past p ns ≡ 0
unfolding past
past_none p [] h = refl
past_none p (n ∷ ns) h = ground (arith, past_none p ns h.1)

-- One thread takes a step over period `p`.
pub past-set :
    (r p i : ℕ) (ns : List ℕ)
    → get_elem? ns i ≡ some p
    → past r (set ns i (p + 1)) ≡ past r ns + (if ltb r p then 0 else if ltb p r then 0 else 1)
unfolding past
past-set r p i [] h = ground arith
past-set r p zero (n ∷ ns) h = ground arith
past-set r p (suc i) (n ∷ ns) h = ground (arith, past-set r p i ns h)

pub All-get {ℓ} :
    (P : ℕ → Type ℓ) (ns : List ℕ) (i p : ℕ) → All P ns → get_elem? ns i ≡ some p → P p
All-get P [] i p h e = cc
All-get P (n ∷ ns) zero p h e = subst P (cc) h.0
All-get P (n ∷ ns) (suc i) p h e = All-get P ns i p h.1 e

pub All-set {ℓ} : (P : ℕ → Type ℓ) (ns : List ℕ) (i v : ℕ) → All P ns → P v → All P (set ns i v)
All-set P [] i v h k = tt
All-set P (n ∷ ns) zero v h k = (k, h.1)
All-set P (n ∷ ns) (suc i) v h k = (h.0, All-set P ns i v h.1 k)

All-replicate {ℓ} : (P : ℕ → Type ℓ) (n v : ℕ) → P v → All P (replicate n v)
All-replicate P zero v k = tt
All-replicate P (suc n) v k = (k, All-replicate P n v k)

pub init-IsQueue : (thn n : ℕ) → IsQueue 0 (init thn n)
unfolding init PrdClauses.init
init-IsQueue thn n = record {
  sets = (refl, sym (past_none 0 _ (All-replicate (λ k. k < 1) n 0 (omega arith))), refl, tt);
  some_set = omega arith;
  threads = length-replicate n 0;
  kept = All-replicate (λ n. 0 ≤ n) n 0 (omega arith);
  behind = All-replicate (λ n. n < 1) n 0 (omega arith);
  fits = omega arith;
}
