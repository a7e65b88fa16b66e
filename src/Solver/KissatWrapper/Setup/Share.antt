-- ===== src/Solver/KissatWrapper/Setup/Share.antt =====
-- How many threads apply elimination, and that the constructor is always done.
use Prim.Native.String.{String}
use text.Mathlib.Text
use native.Mathlib.Nat
use dps_pos.Base.{
  inl, inr, ℕ, zero, suc, ◌+◌, ◌-◌, ◌*◌, ◌/◌, ◌%◌, ◌^◌, ◌≡◌, ◌<◌, ◌≤◌, refl, ap, ◌∙◌, List, [], ◌∷◌,
  ◌++◌, Bool, true, false, Option, none, some, length, get_elem?, ltb, ◌==◌, if◌then◌else◌,
  Bool-cases, arith,
}
use dps_pos.Base.Int.{pos}
use dps_pos.Base.Result.{ok}
use dps_pos.Parallel.Options.{Options}
use dps_pos.Solver.KissatWrapper.Setup.{
  PaKisParam, pakis_params, int_of, quot, rem, less, Call, set_wrapper, set_option,
  rand_pick_until_1st_conf, seed_calls, stable_calls, eliminate_calls, param_calls, pakis_calls,
  set_up,
}
use dps_pos.Solver.KissatWrapper.Setup.Gcd.{gcd-dvd, gcd_total}

-- Of the numbers from `a` on, `left` of them, how many the test holds for.
pub count : (ℕ → Bool) → ℕ → ℕ → ℕ
count f a zero = 0
count f a (suc left) = (if f a then 1 else 0) + count f (suc a) left

count-add : (f : ℕ → Bool) (a m n : ℕ) → count f a (m + n) ≡ count f a m + count f (a + m) n
unfolding count
count-add f a zero n =
    let e : 0 + n ≡ n = omega arith in let e' : a + 0 ≡ a = omega arith in rw (e, e') (omega arith)
count-add f a (suc m) n =
    let e : a + suc m ≡ suc a + m = omega arith in
    let e' : suc m + n ≡ suc (m + n) = omega arith in
    rw (e, e') (omega (arith, count-add f (suc a) m n))

-- The last value that the calls give to an option.
abbrev pub setting : String → Option ℕ → List Call → Option ℕ
setting name v [] = v
setting name v (set_option key n ∷ calls) =
    setting name (if Text.◌==◌ key name then some n else v) calls
setting name v (set_wrapper id ∷ calls) = setting name v calls
setting name v (rand_pick_until_1st_conf b ∷ calls) = setting name v calls

-- The test of the constructor, for a share of `num` in `dem`.
abbrev in_share : ℕ → ℕ → ℕ → Bool
in_share num dem id = ltb (id % dem) num

count_first :
    (num dem i left : ℕ)
    → num ≤ dem
    → i + left ≤ dem
    → count (in_share num dem) i left + (num - (i + left)) ≡ num - i
unfolding count
count_first num dem i zero h k = omega arith
count_first num dem i (suc left) h k =
    let e : i % dem ≡ i = Nat.mod-eq_of_lt (omega arith) in
    let ih = count_first num dem (suc i) left h (omega arith) in rw e (ground (arith, ih))

-- A block of `dem` numbers, wherever it begins.
count_block : (num dem a : ℕ) → num ≤ dem → 0 < dem → count (in_share num dem) a dem ≡ num
unfolding count
count_block num dem zero h k = let e = count_first num dem 0 dem h (omega arith) in omega (arith, e)
count_block num dem (suc a) h k =
    let ih = count_block num dem a h k in
    let f = in_share num dem in
    let e : dem + 1 ≡ suc dem = omega arith in
    let all : count f a (suc dem) ≡ count f a dem + count f (a + dem) 1 =
      rw e at (count-add f a dem 1) in
    let first : count f a (suc dem) ≡ count f a 1 + count f (suc a) dem = omega arith in
    let around : (a + dem) % dem ≡ a % dem = grind (arith, Nat.add-mul-mod_self_left a dem 1) in
    let same : count f (a + dem) 1 ≡ count f a 1 =
      ap (λ x. (if ltb x num then 1 else 0) + 0) around in
    omega (arith, ih, all, first, same)

count_blocks :
    (num dem a n : ℕ) → num ≤ dem → 0 < dem → count (in_share num dem) a (n * dem) ≡ n * num
unfolding count
count_blocks num dem a zero h k = let e : 0 * dem ≡ 0 = omega arith in rw e (omega arith)
count_blocks num dem a (suc n) h k =
    let e : suc n * dem ≡ dem + n * dem = grind arith in
    let f : suc n * num ≡ num + n * num = grind arith in
    rw (e, f)
      (omega (
        arith,
        count-add (in_share num dem) a dem (n * dem),
        count_block num dem a h k,
        count_blocks num dem (a + dem) n h k,
      ))

setting-append :
    (name : String) (xs ys : List Call) (v : Option ℕ)
    → setting name v (xs ++ ys) ≡ setting name (setting name v xs) ys
setting-append name [] ys v = refl
setting-append name (set_option key n ∷ xs) ys v = setting-append name xs ys _
setting-append name (set_wrapper id ∷ xs) ys v = setting-append name xs ys v
setting-append name (rand_pick_until_1st_conf b ∷ xs) ys v = setting-append name xs ys v

-- Calls that leave the option for elimination alone.
abbrev Neutral : List Call → Type 0
Neutral calls = (v : Option ℕ) → setting "eliminate" v calls ≡ v

seed_calls-Neutral : (id : ℕ) → Neutral (seed_calls id)
unfolding seed_calls
seed_calls-Neutral id v = elim (Bool-cases (id == 0)) [ inl z ↦ rw z refl | inr p ↦ rw p refl ]

stable_calls-Neutral : (ks_stable id : ℕ) → Neutral (stable_calls ks_stable id)
unfolding stable_calls
stable_calls-Neutral k id v = elim (Bool-cases (ltb k 4)) [
  | inl one ↦ rw one refl
  | inr mix ↦ rw mix refl
]

some_at : {A : Type 0} (xs : List A) (i : ℕ) → i < length xs → (x : A) × (get_elem? xs i ≡ some x)
some_at [] i h = absurd (omega arith)
some_at (x ∷ xs) zero h = (x, refl)
some_at (x ∷ xs) (suc i) h = some_at xs i (omega arith)

some_params : 0 < length pakis_params
unfolding pakis_params
some_params = omega arith

param_calls-Neutral :
    (x : Option PaKisParam) (p : PaKisParam)
    → x ≡ some p
    → (calls : List Call) × (param_calls x ≡ ok calls) × Neutral calls
unfolding param_calls
param_calls-Neutral none p e = absurd (cc)
param_calls-Neutral (some q) p e = (_, refl, λ v. refl)

-- The access to the table is in bounds.
pakis_calls-Neutral :
    (b : Bool) (id : ℕ) → (calls : List Call) × (pakis_calls b id ≡ ok calls) × Neutral calls
unfolding pakis_calls
pakis_calls-Neutral false id = ([], refl, λ v. refl)
pakis_calls-Neutral true id =
    let (p, e) = some_at pakis_params (id % length pakis_params) (Nat.mod-lt id some_params) in
    param_calls-Neutral (get_elem? pakis_params (id % length pakis_params)) p e

append_Neutral :
    (xs ys : List Call) (v : Option ℕ)
    → Neutral xs
    → setting "eliminate" v (xs ++ ys) ≡ setting "eliminate" v ys
append_Neutral xs ys v h =
    setting-append "eliminate" xs ys v ∙ ap (λ w. setting "eliminate" w ys) (h v)

set_up_setting :
    (id k n : ℕ) (calls : List Call)
    → Neutral calls
    → setting "eliminate" none (
        set_wrapper id
        ∷ set_option "quiet" 1
        ∷ (seed_calls id ++ (stable_calls k id ++ ((set_option "eliminate" n ∷ []) ++ calls))))
      ≡ some n
set_up_setting id k n calls h =
    let rest = (set_option "eliminate" n ∷ []) ++ calls in
    append_Neutral (seed_calls id) (stable_calls k id ++ rest) none (seed_calls-Neutral id)
    ∙ append_Neutral (stable_calls k id) rest none (stable_calls-Neutral k id)
    ∙ h (some n)

below : (m n k : ℕ) → 0 < k → m * k ≤ n * k → m ≤ n
below m n k p h = elim (Bool-cases (ltb n m)) [
  | inl more ↦
      let x : n < m = ground (arith, more) in
      absurd (omega (arith, h, Nat.mul-lt-mul_of_pos_right x p))
  | inr fine ↦ ground (arith, fine)
]

some_factor : (n k : ℕ) → 0 < n * k → 0 < n
some_factor zero k h = let e : 0 * k ≡ 0 = omega arith in absurd (omega (arith, e))
some_factor (suc n) k h = omega arith

eliminate_calls_lem : (k id : ℕ) → (calls : List Call) × (eliminate_calls k id ≡ ok calls)
unfolding eliminate_calls
eliminate_calls_lem k id = elim (Bool-cases (k == 100)) [
  | inl all ↦ ([], rw all refl)
  | inr some_left ↦
      let (g, run) = gcd_total 101 (int_of k) (pos 100) (omega arith) (omega arith) in
      let elim_is = if less (rem (pos id) (quot (pos 100) g)) (quot (int_of k) g) then 1 else 0 in
      (set_option "eliminate" elim_is ∷ [], rw some_left (rw run refl))
]

-- Whatever the options, the constructor is done for every thread number.
pub set_up_lem :
    {Double : Type 0} (o : Options Double) (id : ℕ) → (calls : List Call) × (set_up o id ≡ ok calls)
unfolding set_up
set_up_lem o id =
    let (e, run) = eliminate_calls_lem o.ks_elim id in
    let (p, run', _) = pakis_calls-Neutral o.ks_pakis id in
    (
      set_wrapper id
          ∷ set_option "quiet" 1
          ∷ (seed_calls id ++ (stable_calls o.ks_stable id ++ (e ++ p))),
      rw run (rw run' refl),
    )

-- For a percentage `p` below 100, whatever the other options: the constructor is done for each thread
-- number, where the option for elimination is 1 or 0 in the end. Among any 100 threads whose
-- numbers follow on each other it is 1 for exactly `p`.
pub set_up-count :
    {Double : Type 0} (o : Options Double) (a : ℕ)
    → o.ks_elim < 100
    → (f : ℕ → Bool) × ((id : ℕ)
        → (calls : List Call) × (set_up o id ≡ ok calls)
          × (setting "eliminate" none calls ≡ some (if f id then 1 else 0)))
      × (count f a 100 ≡ o.ks_elim)
unfolding set_up eliminate_calls
set_up-count o a h =
    let (g, run, dp, dh, gp) = gcd-dvd 101 o.ks_elim 100 (omega arith) (omega arith) in
    let small : ltb o.ks_elim (2 ^ 31) ≡ true = ground (arith, h) in
    let num = o.ks_elim / g in
    let dem = 100 / g in
    let p_is : num * g ≡ o.ks_elim = Nat.div-mul_cancel g dp in
    let all_is : dem * g ≡ 100 = Nat.div-mul_cancel g dh in
    let le : num ≤ dem = below num dem g gp (omega (arith, p_is, all_is, h)) in
    let some_dem : 0 < dem = some_factor dem g (omega (arith, all_is)) in
    (
      in_share num dem,
      (λ id.
          let (calls, made, neutral) = pakis_calls-Neutral o.ks_pakis id in
          let not_all : (o.ks_elim == 100) ≡ false = ground (arith, h) in
          let e = set_option "eliminate" (if in_share num dem id then 1 else 0) ∷ [] in
          (
            set_wrapper id
                ∷ set_option "quiet" 1
                ∷ (seed_calls id ++ (stable_calls o.ks_stable id ++ (e ++ calls))),
            rw not_all (rw small (rw run (rw made refl))),
            set_up_setting id o.ks_stable (if in_share num dem id then 1 else 0) calls neutral,
          )),
      rw (Nat.mul_comm g dem ∙ all_is) at (count_blocks num dem a g le some_dem)
          ∙ (Nat.mul_comm g num ∙ p_is),
    )
