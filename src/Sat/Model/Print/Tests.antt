-- ===== src/Sat/Model/Print/Tests.antt =====
-- Three variables on one line.
use dps_pos.Base.{◌≡◌, ◌<◌, refl, [], ◌∷◌, true, false, map, length, All, arith}
use dps_pos.Base.Int.{pos, negsuc, abs}
use dps_pos.Sat.Model.{Model, is_positive}
use dps_pos.Sat.Model.Print.{print, print_bits, print_lines, literals, num_digits, digits}
use dps_pos.Sat.Model.Print.Lines.{concat, line_text, upwards, print_roundtrip}

abbrev three : Model
three = record { num_vars = 3; bits = false ∷ true ∷ false ∷ true ∷ [] }

one_line : print three ≡ (pos 1 ∷ negsuc 1 ∷ pos 3 ∷ []) ∷ []
unfolding print print_bits print_lines literals num_digits digits
one_line = refl

-- "v 12 -30"
two_texts : line_text (pos 12 ∷ negsuc 29 ∷ []) ≡ 118 ∷ 32 ∷ 49 ∷ 50 ∷ 32 ∷ 45 ∷ 51 ∷ 48 ∷ []
two_texts = refl

print_roundtrip_example :
    (map abs (concat (print three)) ≡ upwards 1 3)
    × (map is_positive (concat (print three)) ≡ true ∷ false ∷ true ∷ [])
    × All (λ l. length (line_text l) < 80) (print three)
print_roundtrip_example = print_roundtrip three false (true ∷ false ∷ true ∷ []) refl (omega arith)
