-- ===== src/Sat/Instance/Load.antt =====
-- What the reader gives for a file.
use dps_pos.Base.{
  ℕ, zero, suc, ◌+◌, ◌-◌, ◌^◌, ◌≡◌, ◌≢◌, ◌<◌, ◌≤◌, ◌⊎◌, inl, inr, refl, List, [], ◌∷◌, ◌++◌, Bool,
  true, false, length, u64, ◌==◌, ◌||◌, All, All-append, All-imp, arith, Bool-cases, length-append,
}
use dps_pos.Base.Int.{ℤ, abs}
use dps_pos.Period.Clause.{Clause}
use dps_pos.Sat.Instance.{
  Instance, Loaded, loaded, overflow, no_result, Reader, new_line, is_space, is_digit, max,
  skip_line, literal, take_number, read_formula, new_reader, load_formula,
}
use dps_pos.Sat.Instance.Scan.{
  EndsLine, ends_tail, ends_more, TooLarge, EndOf, later_TooLarge, more_EndOf, skip_line_lem,
  read_digits_lem, number_TooLarge,
}

-- A literal over the variables from 1 to `n`.
abbrev pub InVars : ℕ → ℤ → Type 0
InVars n l = (0 < abs l) × (abs l ≤ n)

abbrev pub total_length : List Clause → ℕ
total_length [] = 0
total_length (c ∷ cs) = length c + total_length cs

-- All literals are over the formula's variables, which fit an `int`; the counters count, up to the
-- wrap-around of their type.
pub record IsInstance (i : Instance) : Type 0 where
  pub lits : All (All (InVars i.num_vars)) i.clauses
  pub vars_fit : i.num_vars < 2 ^ 31
  pub count : i.num_clauses ≡ u64 (length i.clauses)
  pub total : i.tot_literals ≡ u64 (total_length i.clauses)

record IsReader (r : Reader) : Type 0 where
  lits : All (All (InVars r.max_var)) r.instance_clauses
  begun : All (InVars r.max_var) r.clause
  vars_fit : r.max_var < 2 ^ 31
  count : r.num_clauses ≡ u64 (length r.instance_clauses)
  total : r.tot_literals ≡ u64 (total_length r.instance_clauses)

total_length-append :
    (cs : List Clause) (c : Clause) → total_length (cs ++ (c ∷ [])) ≡ total_length cs + length c
total_length-append [] c = omega arith
total_length-append (d ∷ cs) c = omega (arith, total_length-append cs c)

abs-literal : (neg : Bool) (n : ℕ) → abs (literal neg n) ≡ n
abs-literal true zero = refl
abs-literal false zero = refl
abs-literal true (suc n) = refl
abs-literal false (suc n) = refl

more_vars : (n m : ℕ) (c : Clause) → n ≤ m → All (InVars n) c → All (InVars m) c
more_vars n m c h = All-imp (λ l k. (k.0, omega (arith, k.1))) c

take_number-IsReader :
    (num : ℕ) (r : Reader) → num < 2 ^ 31 → IsReader r → IsReader (take_number num r)
unfolding take_number
take_number-IsReader num r h v = elim (Bool-cases (num == 0)) [
  | inl zero_num ↦ rw zero_num (record {
    lits = All-append _ r.instance_clauses (r.clause ∷ []) v.lits (v.begun, tt);
    begun = tt;
    vars_fit = v.vars_fit;
    count = omega (arith, v.count, length-append r.instance_clauses (r.clause ∷ []));
    total = omega (arith, v.total, total_length-append r.instance_clauses r.clause);
  })
  | inr lit ↦
      let low : r.max_var ≤ max r.max_var num = ground arith in
      rw lit (record {
        lits =
            All-imp (λ c k. more_vars r.max_var (max r.max_var num) c low k) r.instance_clauses
              v.lits;
        begun =
            All-append _ r.clause (literal r.neg num ∷ [])
              (more_vars r.max_var (max r.max_var num) r.clause low v.begun)
              (
                (
                  rw (abs-literal r.neg num) (ground arith),
                  rw (abs-literal r.neg num) (ground arith),
                ),
                tt,
              );
        vars_fit = let k = v.vars_fit in ground arith;
        count = v.count;
        total = v.total;
      })
]

-- The result of the main loop.
Good : List ℕ → Loaded Reader → Type 0
Good s x = ((x ≡ overflow) × TooLarge s) ⊎ ((r : Reader) × (x ≡ loaded r) × IsReader r)

Good-later : (s s' : List ℕ) (x : Loaded Reader) → EndOf s s' → Good s' x → Good s x
unfolding Good
Good-later s s' x rest (inl (o, large)) = inl (o, later_TooLarge s s' rest large)
Good-later s s' x rest (inr r) = inr r

read_formula-IsReader :
    (fuel : ℕ) (s : List ℕ) (r : Reader)
    → length s < fuel
    → EndsLine s
    → IsReader r
    → Good s (read_formula fuel s r)
unfolding read_formula Good
read_formula-IsReader zero s r h e v = absurd (omega arith)
read_formula-IsReader (suc fuel) [] r h e v = inr (r, refl, v)
read_formula-IsReader (suc fuel) (c ∷ s) r h e v = elim (Bool-cases (c == 99 || c == 112)) [
  | inl comment ↦
      let left : 0 < length s = elim (ends_more c s e) [
        | inl x ↦ absurd (ground arith)
        | inr y ↦ y
      ] in
      let (s', run, e', l, rest) = skip_line_lem fuel s left (omega arith) (ends_tail c s e) in
      rw comment (
        rw run (
          Good-later (c ∷ s) s' _ (more_EndOf c s s' rest)
            (read_formula-IsReader fuel s' r (omega arith) e' v)))
  | inr no_comment ↦ rw no_comment (elim (Bool-cases (is_space c)) [
    | inl space ↦ rw space (
        Good-later (c ∷ s) s _ (c ∷ [], refl)
          (read_formula-IsReader fuel s r (omega arith) (ends_tail c s e) v))
    | inr no_space ↦ rw no_space (elim (Bool-cases (c == 45)) [
      | inl minus ↦ rw minus (
          Good-later (c ∷ s) s _ (c ∷ [], refl)
            (read_formula-IsReader fuel s (record r { neg = true }) (omega arith) (ends_tail c s e)
              (record {
                lits = v.lits;
                begun = v.begun;
                vars_fit = v.vars_fit;
                count = v.count;
                total = v.total;
              })))
      | inr no_minus ↦ rw no_minus (elim (Bool-cases (is_digit c)) [
        | inl digit ↦ rw digit (elim (read_digits_lem (c - 48) s (ground arith) (ends_tail c s e)) [
          | inl (o, g) ↦ inl (rw o refl, number_TooLarge c s digit g)
          | inr (n, s', run, l, e', k, rest) ↦ rw run (
              Good-later (c ∷ s) s' _ (more_EndOf c s s' rest) (
                read_formula-IsReader fuel s' (take_number n r) (omega arith) e'
                  (take_number-IsReader n r l v)))
        ])
        | inr other ↦ rw other (
            Good-later (c ∷ s) s _ (c ∷ [], refl)
              (read_formula-IsReader fuel s r (omega arith) (ends_tail c s e) v))
      ])
    ])
  ])
]

new_reader-IsReader : IsReader new_reader
new_reader-IsReader = record {
  lits = tt;
  begun = tt;
  vars_fit = omega arith;
  count = omega arith;
  total = omega arith;
}

-- On a file whose last line is ended, fuel for one more round than there are bytes is enough: the
-- reader ends. It gives a formula whose literals are over the variables from 1 to `num_vars`, with
-- the number of its clauses and of their literals; or a number overflows, and then there are digits
-- in the file, one after the other, that stand for a number of 2 ^ 31 or more.
pub load_formula-IsInstance :
    (fuel : ℕ) (bytes : List ℕ)
    → length bytes < fuel
    → EndsLine bytes
    → ((load_formula fuel bytes ≡ overflow) × TooLarge bytes)
      ⊎ ((i : Instance) × (load_formula fuel bytes ≡ loaded i) × IsInstance i)
unfolding load_formula Good
load_formula-IsInstance fuel bytes h e =
    elim (read_formula-IsReader fuel bytes new_reader h e new_reader-IsReader) [
      | inl (o, large) ↦ inl (rw o refl, large)
      | inr (r, run, v) ↦ inr (
        _,
        rw run refl,
        record { lits = v.lits; vars_fit = v.vars_fit; count = v.count; total = v.total },
      )
    ]

skip_line_stuck : (fuel : ℕ) (s : List ℕ) → All (λ c. c ≢ new_line) s → skip_line fuel s ≡ no_result
unfolding skip_line
skip_line_stuck zero s h = refl
skip_line_stuck (suc fuel) [] h = skip_line_stuck fuel [] tt
skip_line_stuck (suc fuel) (c ∷ s) (n, h) =
    let e : (c == new_line) ≡ false = ground (arith, n) in rw e (skip_line_stuck fuel s h)

-- A file that begins with a comment line, or a problem line, that no line end follows: the reader
-- does not end, whatever the fuel.
pub load_formula_stuck :
    (fuel c : ℕ) (s : List ℕ)
    → (c ≡ 99) ⊎ (c ≡ 112)
    → All (λ d. d ≢ new_line) s
    → load_formula fuel (c ∷ s) ≡ no_result
unfolding load_formula read_formula
load_formula_stuck zero c s k h = refl
load_formula_stuck (suc fuel) c s k h =
    let e : (c == 99 || c == 112) ≡ true = ground (arith, k) in
    rw e (rw (skip_line_stuck fuel s h) refl)
