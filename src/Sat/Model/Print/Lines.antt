-- ===== src/Sat/Model/Print/Lines.antt =====
-- The lines are short, and they hold the values.
use dps_pos.Base.{
  ℕ, zero, suc, ◌+◌, ◌*◌, ◌/◌, ◌%◌, ◌^◌, ◌≡◌, ◌<◌, ◌≤◌, inl, inr, refl, ap, ◌∙◌, List, [], ◌∷◌,
  ◌++◌, append_assoc, Bool, true, false, map, length, leb, ltb, ◌==◌, if◌then◌else◌, Bool-cases,
  All, All-imp, length-append, arith,
}
use dps_pos.Base.Int.{ℤ, pos, negsuc, abs}
use dps_pos.Base.Decimal.{decimals, show}
use dps_pos.Sat.Model.{Model, is_positive}
use dps_pos.Sat.Model.Print.{digits, num_digits, literals, print_lines, print_bits, print}

-- The characters of a line: `v`, and each number after a space.
abbrev pub row_text : List ℤ → List ℕ
row_text [] = []
row_text (val ∷ line) = 32 ∷ (show val ++ row_text line)

abbrev pub line_text : List ℤ → List ℕ
line_text [] = []
line_text (val ∷ line) = 118 ∷ row_text (val ∷ line)

-- Their number, as `numDigits` counts.
abbrev row : List ℤ → ℕ
row [] = 0
row (val ∷ line) = (num_digits val + 1) + row line

abbrev width : List ℤ → ℕ
width [] = 0
width (val ∷ line) = suc (row (val ∷ line))

abbrev pub concat : List (List ℤ) → List ℤ
concat [] = []
concat (line ∷ lines) = line ++ concat lines

length-decimals : (fuel n : ℕ) → length (decimals fuel n) ≡ digits fuel n
unfolding digits
length-decimals zero n = refl
length-decimals (suc fuel) n = elim (Bool-cases (n == 0)) [
  | inl z ↦ rw z refl
  | inr p ↦ rw p (
      omega (
        arith,
        length-append (decimals fuel (n / 10)) ((48 + n % 10) ∷ []),
        length-decimals fuel (n / 10),
      ))
]

length-show : (val : ℤ) → length (show val) ≡ num_digits val
unfolding num_digits
length-show (pos n) = length-decimals (suc n) n
length-show (negsuc n) = omega (arith, length-decimals (suc (suc n)) (suc n))

length-row_text : (line : List ℤ) → length (row_text line) ≡ row line
length-row_text [] = refl
length-row_text (val ∷ line) =
    omega (arith, length-append (show val) (row_text line), length-show val, length-row_text line)

line_text-short : (line : List ℤ) → width line < 80 → length (line_text line) < 80
line_text-short [] h = omega arith
line_text-short (val ∷ line) h = omega (arith, h, length-row_text (val ∷ line))

digits_bound : (fuel k n : ℕ) → n < 10 ^ k → digits fuel n ≤ k
unfolding digits
digits_bound zero k n h = omega arith
digits_bound (suc fuel) zero n h =
    let e : 10 ^ 0 ≡ 1 = refl in
    let z : (n == 0) ≡ true = ground (arith, h, e) in rw z (omega arith)
digits_bound (suc fuel) (suc k) n h =
    let e : 10 ^ suc k ≡ 10 * 10 ^ k = grind arith in
    let small : n / 10 < 10 ^ k = omega (arith, h, e) in
    elim (Bool-cases (n == 0)) [
      | inl z ↦ rw z (omega arith)
      | inr p ↦ rw p (omega (arith, digits_bound fuel k (n / 10) small))
    ]

num_digits_bound : (val : ℤ) → abs val < 2 ^ 31 → num_digits val ≤ 11
unfolding num_digits
num_digits_bound (pos n) h = omega (arith, digits_bound (suc n) 10 n (omega (arith, h)))
num_digits_bound (negsuc n) h =
    omega (arith, digits_bound (suc (suc n)) 10 (suc n) (omega (arith, h)))

row-append : (line : List ℤ) (val : ℤ) → row (line ++ (val ∷ [])) ≡ row line + (num_digits val + 1)
row-append [] val = omega arith
row-append (x ∷ line) val = omega (arith, row-append line val)

abbrev Short : List (List ℤ) → Type 0
Short lines = All (λ l. width l < 80) lines

-- What the lines from a begun line on hold.
abbrev Printed : List ℤ → List ℤ → List (List ℤ) → Type 0
Printed line vals lines = (concat lines ≡ line ++ vals) × Short lines

longer :
    (line : List ℤ) (val : ℤ)
    → (let w = width line in (if w == 0 then w + 1 else w) + (num_digits val + 1))
      ≡ width (line ++ (val ∷ []))
longer [] val = omega arith
longer (x ∷ line) val =
    let some : (suc (row (x ∷ line)) == 0) ≡ false = ground arith in
    rw some (omega (arith, row-append line val))

fits_on :
    (line : List ℤ) (val : ℤ)
    → num_digits val ≤ 11
    → leb 80 (width line + 1 + num_digits val) ≡ false
    → width (line ++ (val ∷ [])) < 80
fits_on [] val n h = omega arith
fits_on (x ∷ line) val n h = ground (arith, h, row-append line val)

print_lines_lem :
    (vals line : List ℤ)
    → width line < 80
    → All (λ v. abs v < 2 ^ 31) vals
    → Printed line vals (print_lines (width line) line vals)
unfolding print_lines
print_lines_lem [] line h b = (refl, (h, tt))
print_lines_lem (val ∷ vals) line h (small, b) =
    let n = num_digits_bound val small in
    elim (Bool-cases (leb 80 (width line + 1 + num_digits val))) [
      | inl wraps ↦
          let (all, short) = print_lines_lem vals (val ∷ []) (omega (arith, n)) b in
          let e : 1 + (num_digits val + 1) ≡ suc (num_digits val + 1 + 0) = omega arith in
          rw wraps (rw e (ap (λ x. line ++ x) all, (h, short)))
      | inr fits ↦
          let w : width (line ++ (val ∷ [])) < 80 = fits_on line val n fits in
          let (all, short) = print_lines_lem vals (line ++ (val ∷ [])) w b in
          rw fits (rw (longer line val) (all ∙ append_assoc line (val ∷ []) vals, short))
    ]

literals_fit :
    (var : ℕ) (bits : List Bool)
    → var + length bits < 2 ^ 31
    → All (λ v. abs v < 2 ^ 31) (literals var bits)
unfolding literals
literals_fit var [] h = tt
literals_fit var (true ∷ bits) h =
    (omega (arith, h), literals_fit (suc var) bits (omega (arith, h)))
literals_fit var (false ∷ bits) h =
    (omega (arith, h), literals_fit (suc var) bits (omega (arith, h)))

-- `from`, and the numbers after it.
abbrev pub upwards : ℕ → ℕ → List ℕ
upwards from zero = []
upwards from (suc left) = from ∷ upwards (suc from) left

signs : (var : ℕ) (bits : List Bool) → map is_positive (literals var bits) ≡ bits
unfolding literals
signs var [] = refl
signs var (true ∷ bits) =
    let e : ltb 0 (suc var) ≡ true = ground arith in
    rw e (ap (λ x. true ∷ x) (signs (suc var) bits))
signs var (false ∷ bits) = ap (λ x. false ∷ x) (signs (suc var) bits)

numbers :
    (var : ℕ) (bits : List Bool) → map abs (literals var bits) ≡ upwards (suc var) (length bits)
unfolding literals
numbers var [] = refl
numbers var (true ∷ bits) = ap (λ x. suc var ∷ x) (numbers (suc var) bits)
numbers var (false ∷ bits) = ap (λ x. suc var ∷ x) (numbers (suc var) bits)

-- An assignment to fewer than 2 ^ 31 variables, and the lines that are printed of it. Read one after the
-- other, their numbers are the variables from 1 on, each once and in order, and the signs are the
-- values that were assigned. The text of each line, with its `v`, spaces, signs and digits, has
-- fewer than 80 characters, without the " 0" that ends the last one.
pub print_roundtrip :
    (m : Model) (b : Bool) (bits : List Bool)
    → m.bits ≡ b ∷ bits
    → length bits < 2 ^ 31
    → (map abs (concat (print m)) ≡ upwards 1 (length bits))
      × (map is_positive (concat (print m)) ≡ bits)
      × All (λ l. length (line_text l) < 80) (print m)
unfolding print print_bits
print_roundtrip m b bits e h =
    let (all, short) =
      print_lines_lem (literals 0 bits) [] (omega arith) (literals_fit 0 bits (omega (arith, h))) in
    rw e (
      ap (map abs) all ∙ numbers 0 bits,
      ap (map is_positive) all ∙ signs 0 bits,
      All-imp line_text-short (print_lines 0 [] (literals 0 bits)) short,
    )
