-- ===== src/Parallel/Options.antt =====
-- DPS-src/parallel/Options.h and Options.cpp: what a run can be told on its command line.
--
-- The parser is cxxopts, which is third-party code: `parse` and what it returns, `ParseResult`, are
-- parameters. A getter is a field.
pub mod Table
pub mod Declared
pub mod Applied
mod Tests
use Prim.Native.String.{String}
use dps_pos.Parallel.Options.Table.{OptionDecl, make_default_options}
use dps_pos.Base.{
  ℕ, zero, List, [], ◌∷◌, Bool, true, false, Option, none, some, length, ltb, if◌then◌else◌,
}

pub record Options (Double : Type 0) : Type 0 where
  pub input_file : String
  pub show_model : Bool
  pub verify_model : Bool
  pub real_time_lim : Double
  pub mem_use_lim : Double
  pub log_interval : ℕ
  pub verbose_lv : ℕ
  pub base_solver : String
  pub num_threads : ℕ
  pub margin : ℕ
  pub mem_acc_lim : ℕ
  pub non_det : Bool
  pub adjust_threads : ℕ
  pub fapp_clauses : ℕ
  pub fapp_periods : ℕ
  pub adpt_prd : ℕ
  pub adpt_prd_lb : ℕ
  pub adpt_prd_ub : ℕ
  pub adpt_prd_smth : Double
  pub exp_lbdq_lim : Double
  pub exp_lits_lim : ℕ
  pub exp_lits_margin : Double
  pub ms_len_lim : ℕ
  pub ms_simp : Bool
  pub gl_lbd_lim : ℕ
  pub gl_len_lim : ℕ
  pub gl_simp : Bool
  pub mc_lbd_lim : ℕ
  pub mc_len_lim : ℕ
  pub mc_simp : Bool
  pub ks_lbd_lim : ℕ
  pub ks_stable : ℕ
  pub ks_elim : ℕ
  pub ks_pakis : Bool

pub data Value (Double : Type 0) : Type 0 where
  string_value : String → Value Double
  bool_value : Bool → Value Double
  double_value : Double → Value Double
  uint32_value uint64_value : ℕ → Value Double

-- `count(name)`, `[name]` (nothing where there is no value) and `unmatched()`.
pub record ParseResult (Double : Type 0) : Type 0 where
  pub count : String → ℕ
  pub get : String → Option (Value Double)
  pub unmatched : List String

-- A call that returns, one that ends the run with an exit code, one that ends with an exception, and
-- one that runs into a failed assertion or out of bounds.
pub data Setup (A : Type 0) : Type 0 where
  done : A → Setup A
  exits : ℕ → Setup A
  throws : Setup A
  aborts : Setup A

infixl 5 ◌>>=◌
abbrev pub ◌>>=◌ : {A B : Type 0} → Setup A → (A → Setup B) → Setup B
done a >>= f = f a
exits n >>= f = exits n
throws >>= f = throws
aborts >>= f = aborts

-- One call of a setter with the value of an option. `set_unless a b f` sets 0 if the option `a` is
-- true, and the value of `b` otherwise.
pub data Setter (Double : Type 0) : Type 0 where
  set_string : String → (String → Options Double → Options Double) → Setter Double
  set_bool : String → (Bool → Options Double → Options Double) → Setter Double
  set_double : String → (Double → Options Double → Options Double) → Setter Double
  set_uint32 set_uint64 : String → (ℕ → Options Double → Options Double) → Setter Double
  set_unless : String → String → (ℕ → Options Double → Options Double) → Setter Double

-- `as<T>()`: an option without a value, or with one of another type, is an exception.
module _ {Double : Type 0} where
  unfoldable pub as_string : Option (Value Double) → Setup String
  as_string (some (string_value s)) = done s
  as_string _ = throws

  unfoldable pub as_bool : Option (Value Double) → Setup Bool
  as_bool (some (bool_value b)) = done b
  as_bool _ = throws

  unfoldable pub as_double : Option (Value Double) → Setup Double
  as_double (some (double_value d)) = done d
  as_double _ = throws

  unfoldable pub as_uint32 : Option (Value Double) → Setup ℕ
  as_uint32 (some (uint32_value n)) = done n
  as_uint32 _ = throws

  unfoldable pub as_uint64 : Option (Value Double) → Setup ℕ
  as_uint64 (some (uint64_value n)) = done n
  as_uint64 _ = throws

  unfoldable pub set_one :
      ParseResult Double → Setter Double → Options Double → Setup (Options Double)
  set_one r (set_string name f) o = as_string (r.get name) >>= λ s. done (f s o)
  set_one r (set_bool name f) o = as_bool (r.get name) >>= λ b. done (f b o)
  set_one r (set_double name f) o = as_double (r.get name) >>= λ d. done (f d o)
  set_one r (set_uint32 name f) o = as_uint32 (r.get name) >>= λ n. done (f n o)
  set_one r (set_uint64 name f) o = as_uint64 (r.get name) >>= λ n. done (f n o)
  set_one r (set_unless flag name f) o = as_bool (r.get flag) >>= λ b.
      if b then done (f 0 o) else (as_uint32 (r.get name) >>= λ n. done (f n o))

  unfoldable pub set_all :
      ParseResult Double → List (Setter Double) → Options Double → Setup (Options Double)
  set_all r [] o = done o
  set_all r (x ∷ xs) o = set_one r x o >>= set_all r xs

  -- The calls, in their order.
  unfoldable pub setters : List (Setter Double)
  setters =
      set_bool "model" (λ b o. record o { show_model = b })
      ∷ set_bool "verify" (λ b o. record o { verify_model = b })
      ∷ set_double "real-time-lim" (λ d o. record o { real_time_lim = d })
      ∷ set_double "mem-lim" (λ d o. record o { mem_use_lim = d })
      ∷ set_uint32 "log-interval" (λ n o. record o { log_interval = n })
      ∷ set_unless "quiet" "verbose" (λ n o. record o { verbose_lv = n })
      ∷ set_uint32 "nthreads" (λ n o. record o { num_threads = n })
      ∷ set_uint32 "margin" (λ n o. record o { margin = n })
      ∷ set_uint64 "period" (λ n o. record o { mem_acc_lim = n })
      ∷ set_bool "non-det" (λ b o. record o { non_det = b })
      ∷ set_string "solver" (λ s o. record o { base_solver = s })
      ∷ set_uint32 "adjust-threads" (λ n o. record o { adjust_threads = n })
      ∷ set_uint32 "fapp-clauses" (λ n o. record o { fapp_clauses = n })
      ∷ set_uint32 "fapp-periods" (λ n o. record o { fapp_periods = n })
      ∷ set_uint32 "adpt-prd" (λ n o. record o { adpt_prd = n })
      ∷ set_uint64 "adpt-prd-lb" (λ n o. record o { adpt_prd_lb = n })
      ∷ set_uint64 "adpt-prd-ub" (λ n o. record o { adpt_prd_ub = n })
      ∷ set_double "adpt-prd-smth" (λ d o. record o { adpt_prd_smth = d })
      ∷ set_double "exp-lbdq-lim" (λ d o. record o { exp_lbdq_lim = d })
      ∷ set_uint32 "exp-lits-lim" (λ n o. record o { exp_lits_lim = n })
      ∷ set_double "exp-lits-margin" (λ d o. record o { exp_lits_margin = d })
      ∷ set_uint32 "ms-len" (λ n o. record o { ms_len_lim = n })
      ∷ set_bool "ms-simp" (λ b o. record o { ms_simp = b })
      ∷ set_uint32 "gl-lbd" (λ n o. record o { gl_lbd_lim = n })
      ∷ set_uint32 "gl-len" (λ n o. record o { gl_len_lim = n })
      ∷ set_bool "gl-simp" (λ b o. record o { gl_simp = b })
      ∷ set_uint32 "mc-lbd" (λ n o. record o { mc_lbd_lim = n })
      ∷ set_uint32 "mc-len" (λ n o. record o { mc_len_lim = n })
      ∷ set_bool "mc-simp" (λ b o. record o { mc_simp = b })
      ∷ set_uint32 "ks-lbd" (λ n o. record o { ks_lbd_lim = n })
      ∷ set_uint32 "ks-stable" (λ n o. record o { ks_stable = n })
      ∷ set_uint32 "ks-elim" (λ n o. record o { ks_elim = n })
      ∷ set_bool "ks-pakis" (λ b o. record o { ks_pakis = b })
      ∷ []

  unfoldable pub set_input : ParseResult Double → Options Double → Setup (Options Double)
  set_input r o =
      if ltb 0 (r.count "input")
      then (as_string (r.get "input") >>= λ s. done (record o { input_file = s }))
      else done o

  -- The tests after the parser, which returns nothing for an `OptionException`.
  unfoldable pub use_parsed : Option (ParseResult Double) → Options Double → Setup (Options Double)
  use_parsed none o = exits 0
  use_parsed (some r) o =
      if ltb 0 (r.count "help")
      then exits 0
      else if ltb 0 (length r.unmatched)
      then exits 0
      else if ltb 0 (r.count "banner")
      then exits 0
      else (set_input r o >>= set_all r setters)

  -- `parse` is given the declared options and the arguments. Without arguments the program parses
  -- `default_argv`.
  unfoldable pub set_options :
      (List OptionDecl → List String → Option (ParseResult Double))
      → Option (List String)
      → Options Double
      → Setup (Options Double)
  set_options parse none o = use_parsed (parse make_default_options ("DPS" ∷ [])) o
  set_options parse (some argv) o = use_parsed (parse make_default_options argv) o

unfoldable pub quiet : {Double : Type 0} → Options Double → Options Double
quiet o = record o { verbose_lv = 0 }

-- `Options::Options`, where the parser understands the defaults as they are written. Initially the
-- input file is the empty string. The arguments are the values of "0", "0.1", "0.2" and "3".
abbrev pub defaults : {Double : Type 0} → Double → Double → Double → Double → Options Double
defaults nothing tenth fifth three = record {
  input_file = "";
  show_model = false;
  verify_model = false;
  real_time_lim = nothing;
  mem_use_lim = nothing;
  log_interval = 10;
  verbose_lv = 1;
  base_solver = "kissat";
  num_threads = 0;
  margin = 20;
  mem_acc_lim = 1000000;
  non_det = false;
  adjust_threads = 3;
  fapp_clauses = 10000;
  fapp_periods = 50;
  adpt_prd = 0;
  adpt_prd_lb = 0;
  adpt_prd_ub = 0;
  adpt_prd_smth = tenth;
  exp_lbdq_lim = fifth;
  exp_lits_lim = 150;
  exp_lits_margin = three;
  ms_len_lim = 10;
  ms_simp = false;
  gl_lbd_lim = 7;
  gl_len_lim = 24;
  gl_simp = false;
  mc_lbd_lim = 3;
  mc_len_lim = 0;
  mc_simp = false;
  ks_lbd_lim = 3;
  ks_stable = 1;
  ks_elim = 50;
  ks_pakis = false;
}
