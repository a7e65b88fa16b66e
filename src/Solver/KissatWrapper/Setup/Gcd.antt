-- ===== src/Solver/KissatWrapper/Setup/Gcd.antt =====
-- `gcd` of DPS-src/solvers/KissatWrapper.cpp comes to its end, with a common divisor.
use Prim.Native.Nat.{◌∣◌}
use native.Mathlib.Nat
use dps_pos.Base.{inl, inr, ℕ, zero, suc, ◌%◌, ◌≡◌, ◌≢◌, ◌<◌, refl, false, ◌==◌, Bool-cases, arith}
use dps_pos.Base.Int.{ℤ, pos, negsuc, abs}
use dps_pos.Base.Result.{ok}
use dps_pos.Solver.KissatWrapper.Setup.{negated, rem, gcd}

pub gcd-dvd :
    (fuel a b : ℕ)
    → 0 < b
    → b < fuel
    → (g : ℕ) × (gcd fuel (pos a) (pos b) ≡ ok (pos g)) × (g ∣ a) × (g ∣ b) × (0 < g)
unfolding gcd
gcd-dvd zero a b h k = absurd (omega arith)
gcd-dvd (suc fuel) a zero h k = absurd (omega arith)
gcd-dvd (suc fuel) a (suc b) h k =
    let some_b : (suc b == 0) ≡ false = ground arith in
    elim (Bool-cases (a % suc b == 0)) [
      | inl divides ↦
          let z : a % suc b ≡ 0 = ground (arith, divides) in
          (
            suc b,
            rw some_b (rw divides refl),
            Nat.dvd_of_mod-eq-zero (suc b) z,
            Nat.dvd_refl (suc b),
            h,
          )
      | inr not_yet ↦
          let z : a % suc b ≢ 0 = λ e. ground (arith, not_yet, e) in
          let (g, run, db, dr, gp) =
            gcd-dvd fuel (suc b) (a % suc b) (omega (arith, z)) (omega arith) in
          (g, rw some_b (rw not_yet run), (Nat.dvd-mod_iff _ db).0 dr, db, gp)
    ]

abs-negated : (n : ℕ) → abs (negated n) ≡ n
abs-negated zero = refl
abs-negated (suc n) = refl

rem_less : (a b : ℤ) → 0 < abs b → abs (rem a b) < abs b
rem_less (pos a) b h = omega (arith, h)
rem_less (negsuc a) b h = omega (arith, h, abs-negated (suc a % abs b))

-- With numbers of any sign too, the method comes to its end.
pub gcd_total : (fuel : ℕ) (a b : ℤ) → 0 < abs b → abs b < fuel → (g : ℤ) × (gcd fuel a b ≡ ok g)
unfolding gcd
gcd_total zero a b h k = absurd (omega arith)
gcd_total (suc fuel) a b h k =
    let some_b : (abs b == 0) ≡ false = ground (arith, h) in
    elim (Bool-cases (abs (rem a b) == 0)) [
      | inl divides ↦ (b, rw some_b (rw divides refl))
      | inr not_yet ↦
          let left : 0 < abs (rem a b) = ground (arith, not_yet) in
          let (g, run) = gcd_total fuel b (rem a b) left (omega (arith, k, rem_less a b h)) in
          (g, rw some_b (rw not_yet run))
    ]
