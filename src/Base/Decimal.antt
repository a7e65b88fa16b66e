-- ===== src/Base/Decimal.antt =====
-- Decimal numbers as bytes, from the first digit to the last.
use dps_pos.Base.{
  ℕ, zero, suc, ◌+◌, ◌-◌, ◌*◌, ◌/◌, ◌%◌, ◌^◌, List, [], ◌∷◌, ◌++◌, length, length-append, ◌==◌,
  if◌then◌else◌, ◌≡◌, ◌≤◌, arith, Bool-cases, inl, inr,
}
use dps_pos.Base.Int.{ℤ, pos, negsuc}

-- The number that digits stand for.
abbrev pub value : List ℕ → ℕ
value [] = 0
value (c ∷ ds) = (c - 48) * 10 ^ length ds + value ds

-- The digits of a number, without leading zeros, and none of 0. The fuel bounds their number.
abbrev pub decimals : ℕ → ℕ → List ℕ
decimals zero n = []
decimals (suc fuel) n = if n == 0 then [] else decimals fuel (n / 10) ++ ((48 + n % 10) ∷ [])

value-append : (ds : List ℕ) (d : ℕ) → value (ds ++ ((48 + d) ∷ [])) ≡ value ds * 10 + d
value-append [] d = omega arith
value-append (c ∷ ds) d =
    let more : length (ds ++ ((48 + d) ∷ [])) ≡ suc (length ds) =
      omega (arith, length-append ds ((48 + d) ∷ [])) in
    let p : 10 ^ suc (length ds) ≡ 10 * 10 ^ length ds = grind arith in
    rw (more, p, value-append ds d) (grind arith)

-- The digits of a number stand for it.
value-decimals : (fuel n : ℕ) → n ≤ fuel → value (decimals fuel n) ≡ n
value-decimals zero n h = omega arith
value-decimals (suc fuel) n h = elim (Bool-cases (n == 0)) [
  | inl z ↦ rw z (ground (arith, z))
  | inr p ↦
      let ih = value-decimals fuel (n / 10) (ground (arith, h, p)) in
      rw p (omega (arith, ih, value-append (decimals fuel (n / 10)) (n % 10)))
]

-- The text of a number other than 0, with a minus sign before a negative one.
abbrev pub show : ℤ → List ℕ
show (pos n) = decimals (suc n) n
show (negsuc n) = 45 ∷ decimals (suc (suc n)) (suc n)
