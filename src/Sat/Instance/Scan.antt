-- ===== src/Sat/Instance/Scan.antt =====
-- The parts of a file that the reader passes over at once: lines, and the digits of a number.
use dps_pos.Base.{
  ℕ, zero, suc, ◌+◌, ◌-◌, ◌*◌, ◌^◌, ◌≡◌, ◌<◌, ◌≤◌, ◌⊎◌, inl, inr, refl, sym, ap, ◌∙◌, List, [], ◌∷◌,
  ◌++◌, true, length, ltb, ◌==◌, All, arith, Bool-cases, append_assoc,
}
use dps_pos.Base.Decimal.{value}
use dps_pos.Sat.Instance.{loaded, overflow, new_line, is_digit, skip_line, read_digits}

-- A file that is empty or whose last line is ended.
abbrev pub EndsLine : List ℕ → Type 0
EndsLine [] = Unit
EndsLine (c ∷ []) = c ≡ new_line
EndsLine (c ∷ d ∷ s) = EndsLine (d ∷ s)

pub ends_tail : (c : ℕ) (s : List ℕ) → EndsLine (c ∷ s) → EndsLine s
ends_tail c [] h = tt
ends_tail c (d ∷ s) h = h

pub ends_more : (c : ℕ) (s : List ℕ) → EndsLine (c ∷ s) → (c ≡ new_line) ⊎ (0 < length s)
ends_more c [] h = inl h
ends_more c (d ∷ s) h = inr (omega arith)

-- Somewhere in the file there are digits that stand for a number too large for an `int`.
abbrev pub TooLarge : List ℕ → Type 0
TooLarge bytes =
    (pre ds post : List ℕ) × (bytes ≡ pre ++ (ds ++ post))
    × All (λ c. is_digit c ≡ true) ds
    × (2 ^ 31 ≤ value ds)

-- What is left of the file after a part of it.
abbrev pub EndOf : List ℕ → List ℕ → Type 0
EndOf s s' = (pre : List ℕ) × (s ≡ pre ++ s')

pub later_TooLarge : (s s' : List ℕ) → EndOf s s' → TooLarge s' → TooLarge s
later_TooLarge s s' (pre, e) (pre', ds, post, e', digits, large) = (
  pre ++ pre',
  ds,
  post,
  e ∙ ap (λ x. pre ++ x) e' ∙ sym (append_assoc pre pre' (ds ++ post)),
  digits,
  large,
)

pub more_EndOf : (c : ℕ) (s s' : List ℕ) → EndOf s s' → EndOf (c ∷ s) s'
more_EndOf c s s' (pre, e) = (c ∷ pre, ap (λ x. c ∷ x) e)

pub skip_line_lem :
    (fuel : ℕ) (s : List ℕ)
    → 0 < length s
    → length s ≤ fuel
    → EndsLine s
    → (s' : List ℕ) × (skip_line fuel s ≡ loaded s')
      × EndsLine s'
      × (length s' < length s)
      × EndOf s s'
unfolding skip_line
skip_line_lem zero s z h e = absurd (omega arith)
skip_line_lem (suc fuel) [] z h e = absurd (omega arith)
skip_line_lem (suc fuel) (c ∷ s) z h e = elim (Bool-cases (c == new_line)) [
  | inl end ↦ (s, rw end refl, ends_tail c s e, omega arith, (c ∷ [], refl))
  | inr more ↦
      let left : 0 < length s = elim (ends_more c s e) [
        | inl x ↦ absurd (ground arith)
        | inr y ↦ y
      ] in
      let (s', run, e', l, rest) = skip_line_lem fuel s left (omega arith) (ends_tail c s e) in
      (s', rw more run, e', omega arith, more_EndOf c s s' rest)
]

-- Digits at the start of the file that make the number before them too large.
pub Outgrown : ℕ → List ℕ → Type 0
Outgrown num s =
    (ds post : List ℕ) × (s ≡ ds ++ post)
    × All (λ c. is_digit c ≡ true) ds
    × (2 ^ 31 ≤ num * 10 ^ length ds + value ds)

Outgrown-now :
    (num c : ℕ) (s : List ℕ)
    → is_digit c ≡ true
    → 2 ^ 31 ≤ num * 10 + (c - 48)
    → Outgrown num (c ∷ s)
unfolding Outgrown
Outgrown-now num c s digit h = (c ∷ [], s, refl, (digit, tt), omega (arith, h))

shift : (num d p q v : ℕ) → q ≡ 10 * p → num * q + (d * p + v) ≡ (num * 10 + d) * p + v
shift num d p q v e = rw e (grind arith)

Outgrown-later :
    (num c : ℕ) (s : List ℕ)
    → is_digit c ≡ true
    → Outgrown (num * 10 + (c - 48)) s
    → Outgrown num (c ∷ s)
unfolding Outgrown
Outgrown-later num c s digit (ds, post, e, digits, large) =
    let p : 10 ^ suc (length ds) ≡ 10 * 10 ^ length ds = grind arith in
    let same : num * 10 ^ suc (length ds) + ((c - 48) * 10 ^ length ds + value ds)
        ≡ (num * 10 + (c - 48)) * 10 ^ length ds + value ds =
      shift num (c - 48) (10 ^ length ds) (10 ^ suc (length ds)) (value ds) p in
    (c ∷ ds, post, ap (λ x. c ∷ x) e, (digit, digits), omega (arith, large, same))

pub read_digits_lem :
    (num : ℕ) (s : List ℕ)
    → num < 2 ^ 31
    → EndsLine s
    → ((read_digits num s ≡ overflow) × Outgrown num s)
      ⊎ ((n : ℕ) × (s' : List ℕ) × (read_digits num s ≡ loaded (n, s'))
          × (n < 2 ^ 31)
          × EndsLine s'
          × (length s' ≤ length s)
          × EndOf s s')
unfolding read_digits
read_digits_lem num [] h e = inr (num, [], refl, h, tt, omega arith, ([], refl))
read_digits_lem num (c ∷ s) h e = elim (Bool-cases (is_digit c)) [
  | inl digit ↦ elim (Bool-cases (ltb (num * 10 + (c - 48)) (2 ^ 31))) [
    | inl fits ↦ elim (read_digits_lem (num * 10 + (c - 48)) s (ground arith) (ends_tail c s e)) [
      | inl (o, g) ↦ inl (rw digit (rw fits o), Outgrown-later num c s digit g)
      | inr (n, s', run, l, e', k, rest) ↦
          inr (n, s', rw digit (rw fits run), l, e', omega arith, more_EndOf c s s' rest)
    ]
    | inr big ↦ inl (rw digit (rw big refl), Outgrown-now num c s digit (ground arith))
  ]
  | inr other ↦ inr (num, s, rw other refl, h, ends_tail c s e, omega arith, (c ∷ [], refl))
]

-- A number whose first digit is `c`.
pub number_TooLarge :
    (c : ℕ) (s : List ℕ) → is_digit c ≡ true → Outgrown (c - 48) s → TooLarge (c ∷ s)
unfolding Outgrown
number_TooLarge c s digit (ds, post, e, digits, large) =
    ([], c ∷ ds, post, ap (λ x. c ∷ x) e, (digit, digits), large)
