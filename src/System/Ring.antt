-- ===== src/System/Ring.antt =====
-- Threads in a ring: the thread at distance `i` from thread `t`.
use dps_pos.Base.{
  ℕ, ◌+◌, ◌-◌, ◌%◌, ◌<◌, ◌≡◌, ◌≢◌, ltb, if◌then◌else◌, arith, Bool-cases, inl, inr, ◌∙◌,
}
use native.Mathlib.Nat.{mod-eq_of_lt, mod-eq-sub-mod}

-- The distance of `u` from `t` among `n` threads.
abbrev pub dist : ℕ → ℕ → ℕ → ℕ
dist n t u = if ltb t u then u - t else u + n - t

pub ring_mod :
    (n t i : ℕ) → t < n → i < n → (t + i) % n ≡ (if ltb (t + i) n then t + i else t + i - n)
ring_mod n t i h k = elim (Bool-cases (ltb (t + i) n)) [
  | inl inside ↦ rw inside (mod-eq_of_lt (ground arith))
  | inr around ↦ rw around (mod-eq-sub-mod (ground arith) ∙ mod-eq_of_lt (ground arith))
]

pub ring_lt : (n t i : ℕ) → t < n → i < n → (t + i) % n < n
ring_lt n t i h k = omega arith

-- The thread at distance `i` is at that distance, and is not `t`.
pub dist_ring : (n t i : ℕ) → t < n → i < n → 0 < i → dist n t ((t + i) % n) ≡ i
dist_ring n t i h k z = ground (arith, ring_mod n t i h k)

pub ring_ne : (n t i : ℕ) → t < n → i < n → 0 < i → (t + i) % n ≢ t
ring_ne n t i h k z = ground (arith, ring_mod n t i h k)

-- No other thread is at that distance.
pub dist_inj :
    (n t u v : ℕ) → t < n → u < n → v < n → u ≢ t → v ≢ t → dist n t u ≡ dist n t v → u ≡ v
dist_inj n t u v h k l a b e = ground arith

pub dist_range : (n t u : ℕ) → t < n → u < n → t ≢ u → (0 < dist n t u) × (dist n t u < n)
dist_range n t u h k a = ground arith
