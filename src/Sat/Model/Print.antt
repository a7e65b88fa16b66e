-- ===== src/Sat/Model/Print.antt =====
-- `operator<<` of DPS-src/sat/Model.cpp: the lines of values that a run prints.
--
-- A line is the list of its numbers; `v` stands before them if there are any. The last line is ended
-- by " 0", whether it has numbers or not.
pub mod Lines
mod Tests
use dps_pos.Base.{ℕ, zero, suc, ◌+◌, ◌/◌, List, [], ◌∷◌, ◌++◌, Bool, leb, ◌==◌, if◌then◌else◌}
use dps_pos.Base.Int.{ℤ, pos, negsuc, abs}
use dps_pos.Sat.Model.{Model}

-- The loop of `numDigits`, with one round more than is needed.
unfoldable pub digits : ℕ → ℕ → ℕ
digits zero number = 0
digits (suc fuel) number =
    let rest = digits fuel (number / 10) in if number == 0 then 0 else suc rest

unfoldable pub num_digits : ℤ → ℕ
num_digits (pos n) = digits (suc n) n
num_digits (negsuc n) = 1 + digits (suc (suc n)) (suc n)

-- The values, from the variable `var` on.
unfoldable pub literals : ℕ → List Bool → List ℤ
literals var [] = []
literals var (b ∷ bits) = (if b then pos (suc var) else negsuc var) ∷ literals (suc var) bits

-- The loop, with the line that has been begun.
unfoldable pub print_lines : ℕ → List ℤ → List ℤ → List (List ℤ)
print_lines used_width line [] = line ∷ []
print_lines used_width line (val ∷ vals) =
    let n = num_digits val in
    let wraps = leb 80 (used_width + 1 + n) in
    let width = if wraps then 0 else used_width in
    let width' = if width == 0 then width + 1 else width in
    let rest = print_lines (width' + (n + 1)) ((if wraps then [] else line) ++ (val ∷ [])) vals in
    if wraps then line ∷ rest else rest

-- The bit at index 0 is not printed.
unfoldable pub print_bits : List Bool → List (List ℤ)
print_bits [] = [] ∷ []
print_bits (b ∷ bits) = print_lines 0 [] (literals 0 bits)

unfoldable pub print : Model → List (List ℤ)
print m = print_bits m.bits
