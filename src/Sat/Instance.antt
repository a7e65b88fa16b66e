-- ===== src/Sat/Instance.antt =====
-- DPS-src/sat/Instance.h and Instance.cpp: a formula, and its reader.
--
-- The file is the list of its bytes. A byte that `gzgetc` gives is taken off the list; on the empty
-- list it gives EOF, each time. A run of the loops has fuel; without enough of it there is no result.
-- A number that does not fit an `int` is undefined behaviour there, and the outcome `overflow` here.
pub mod Scan
pub mod Load
use dps_pos.Base.{
  ℕ, zero, suc, ◌+◌, ◌-◌, ◌*◌, ◌^◌, List, [], ◌∷◌, ◌++◌, Bool, true, false, ◌&&◌, ◌||◌, length, u64,
  ltb, ◌==◌, if◌then◌else◌,
}
use dps_pos.Base.Int.{ℤ, pos, negsuc}
use dps_pos.Period.Clause.{Clause}

pub record Instance : Type 0 where
  pub clauses : List Clause
  pub num_vars : ℕ
  pub num_clauses : ℕ
  pub tot_literals : ℕ

pub data Loaded (A : Type 0) : Type 0 where
  loaded : A → Loaded A
  overflow : Loaded A
  no_result : Loaded A

infixl 5 ◌>>=◌
abbrev pub ◌>>=◌ : {A B : Type 0} → Loaded A → (A → Loaded B) → Loaded B
loaded a >>= f = f a
overflow >>= f = overflow
no_result >>= f = no_result

-- The reader's variables.
pub record Reader : Type 0 where
  pub instance_clauses : List Clause
  pub num_clauses : ℕ
  pub tot_literals : ℕ
  pub clause : Clause
  pub max_var : ℕ
  pub neg : Bool

abbrev pub new_line : ℕ
new_line = 10

-- `isspace` and `isdigit` in the C locale.
abbrev pub is_space : ℕ → Bool
is_space c = c == 32 || (ltb 8 c && ltb c 14)

abbrev pub is_digit : ℕ → Bool
is_digit c = ltb 47 c && ltb c 58

abbrev pub max : ℕ → ℕ → ℕ
max a b = if ltb a b then b else a

-- `while(c != '\n') c = gzgetc(in);`
unfoldable pub skip_line : ℕ → List ℕ → Loaded (List ℕ)
skip_line zero s = no_result
skip_line (suc fuel) [] = skip_line fuel []
skip_line (suc fuel) (c ∷ s) =
    let rest = skip_line fuel s in if c == new_line then loaded s else rest

-- The digits after the first one, and the byte after them, which is read too.
unfoldable pub read_digits : ℕ → List ℕ → Loaded (ℕ × List ℕ)
read_digits num [] = loaded (num, [])
read_digits num (c ∷ s) =
    let num' = num * 10 + (c - 48) in
    let rest = read_digits num' s in
    if is_digit c then (if ltb num' (2 ^ 31) then rest else overflow) else loaded (num, s)

-- `num = -num` and its type.
abbrev pub literal : Bool → ℕ → ℤ
literal neg zero = pos 0
literal neg (suc n) = if neg then negsuc n else pos (suc n)

-- What is done with a number.
unfoldable pub take_number : ℕ → Reader → Reader
take_number num r =
    if num == 0
    then record r {
      instance_clauses = r.instance_clauses ++ (r.clause ∷ []);
      num_clauses = u64 (r.num_clauses + 1);
      tot_literals = u64 (r.tot_literals + length r.clause);
      clause = [];
      neg = false;
    }
    else record r {
      clause = r.clause ++ (literal r.neg num ∷ []);
      max_var = max r.max_var num;
      neg = false;
    }

-- The main loop.
unfoldable pub read_formula : ℕ → List ℕ → Reader → Loaded Reader
read_formula zero s r = no_result
read_formula (suc fuel) [] r = loaded r
read_formula (suc fuel) (c ∷ s) r =
    let rest = read_formula fuel in
    if c == 99 || c == 112
    then (skip_line fuel s >>= λ s'. rest s' r)
    else if is_space c
    then rest s r
    else if c == 45
    then rest s (record r { neg = true })
    else if is_digit c
    then (read_digits (c - 48) s >>= λ d. rest d.1 (take_number d.0 r))
    else rest s r

abbrev pub new_reader : Reader
new_reader = record {
  instance_clauses = [];
  num_clauses = 0;
  tot_literals = 0;
  clause = [];
  max_var = 0;
  neg = false;
}

unfoldable pub load_formula : ℕ → List ℕ → Loaded Instance
load_formula fuel bytes = read_formula fuel bytes new_reader >>= λ r. loaded (record {
  clauses = r.instance_clauses;
  num_vars = r.max_var;
  num_clauses = r.num_clauses;
  tot_literals = r.tot_literals;
})
