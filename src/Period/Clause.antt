-- ===== src/Period/Clause.antt =====
-- DPS-src/sat/Clause.h: a clause is a vector of literals.
use dps_pos.Base.{ℕ, List, [], ◌∷◌, ◌+◌, ◌++◌, ◌≡◌, arith, length}
use dps_pos.Base.Int.{ℤ}

abbrev pub Clause : Type 0
Clause = List ℤ

-- The number of literals in a list of clauses.
unfoldable pub literals : List Clause → ℕ
literals [] = 0
literals (c ∷ cs) = length c + literals cs

pub literals-append : (xs ys : List Clause) → literals (xs ++ ys) ≡ literals xs + literals ys
unfolding literals
literals-append [] ys = omega arith
literals-append (c ∷ xs) ys = omega (arith, literals-append xs ys)
