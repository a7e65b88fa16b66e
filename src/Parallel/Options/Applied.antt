-- ===== src/Parallel/Options/Applied.antt =====
-- Each option sets its own field, and every field has an option.
use Prim.Native.String.{String}
use text.Mathlib.Text.{◌==◌}
use dps_pos.Base.{◌≡◌, refl, List, [], ◌∷◌, false, Option, none, some, if◌then◌else◌}
use dps_pos.Parallel.Options.{
  Options, Value, string_value, bool_value, double_value, uint32_value, uint64_value, ParseResult,
  done, as_string, as_bool, as_double, as_uint32, as_uint64, set_one, set_all, setters, set_input,
  use_parsed, set_options,
}

module _ {V : Type 0} where
  abbrev find : String → List (String × V) → Option V
  find name [] = none
  find name ((k, v) ∷ m) = let rest = find name m in if k == name then some v else rest

module _ {Double : Type 0} where
  -- The values on a command line that asks for `o`.
  abbrev entries : Options Double → List (String × Value Double)
  entries o =
      ("input", string_value o.input_file)
      ∷ ("model", bool_value o.show_model)
      ∷ ("verify", bool_value o.verify_model)
      ∷ ("real-time-lim", double_value o.real_time_lim)
      ∷ ("mem-lim", double_value o.mem_use_lim)
      ∷ ("banner", bool_value false)
      ∷ ("log-interval", uint32_value o.log_interval)
      ∷ ("quiet", bool_value false)
      ∷ ("verbose", uint32_value o.verbose_lv)
      ∷ ("solver", string_value o.base_solver)
      ∷ ("nthreads", uint32_value o.num_threads)
      ∷ ("margin", uint32_value o.margin)
      ∷ ("period", uint64_value o.mem_acc_lim)
      ∷ ("non-det", bool_value o.non_det)
      ∷ ("adjust-threads", uint32_value o.adjust_threads)
      ∷ ("fapp-clauses", uint32_value o.fapp_clauses)
      ∷ ("fapp-periods", uint32_value o.fapp_periods)
      ∷ ("adpt-prd", uint32_value o.adpt_prd)
      ∷ ("adpt-prd-lb", uint64_value o.adpt_prd_lb)
      ∷ ("adpt-prd-ub", uint64_value o.adpt_prd_ub)
      ∷ ("adpt-prd-smth", double_value o.adpt_prd_smth)
      ∷ ("exp-lbdq-lim", double_value o.exp_lbdq_lim)
      ∷ ("exp-lits-lim", uint32_value o.exp_lits_lim)
      ∷ ("exp-lits-margin", double_value o.exp_lits_margin)
      ∷ ("ms-len", uint32_value o.ms_len_lim)
      ∷ ("ms-simp", bool_value o.ms_simp)
      ∷ ("gl-lbd", uint32_value o.gl_lbd_lim)
      ∷ ("gl-len", uint32_value o.gl_len_lim)
      ∷ ("gl-simp", bool_value o.gl_simp)
      ∷ ("mc-lbd", uint32_value o.mc_lbd_lim)
      ∷ ("mc-len", uint32_value o.mc_len_lim)
      ∷ ("mc-simp", bool_value o.mc_simp)
      ∷ ("ks-lbd", uint32_value o.ks_lbd_lim)
      ∷ ("ks-stable", uint32_value o.ks_stable)
      ∷ ("ks-elim", uint32_value o.ks_elim)
      ∷ ("ks-pakis", bool_value o.ks_pakis)
      ∷ []

  abbrev pub parsed : Options Double → ParseResult Double
  parsed o = record {
    count = λ name. if name == "input" then 1 else 0;
    get = λ name. find name (entries o);
    unmatched = [];
  }

  -- Whatever the options were before: if the parser understands the arguments as the values of `o`,
  -- with quiet mode off, then the options are `o`.
  pub set_options-parsed :
      (o before : Options Double) (argv : List String)
      → set_options (λ decls args. some (parsed o)) (some argv) before ≡ done o
  unfolding set_options use_parsed set_input set_all set_one setters as_string as_bool as_double
      as_uint32 as_uint64
  set_options-parsed o before argv = refl
