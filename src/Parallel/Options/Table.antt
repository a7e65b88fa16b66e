-- ===== src/Parallel/Options/Table.antt =====
-- `Options::makeDefaultOptions` of DPS-src/parallel/Options.cpp: the options that the parser is told of.
use Prim.Native.String.{String}
use dps_pos.Base.{List, [], ◌∷◌, Option, none, some}

-- The types that an option's value can have.
pub data Kind : Type 0 where
  string_kind bool_kind double_kind uint32_kind uint64_kind : Kind

-- One entry of `add_options`, without its text. A short name that is missing is "".
pub record OptionDecl : Type 0 where
  pub short : String
  pub long : String
  pub kind : Kind
  pub default_value : Option String

abbrev decl : String → Kind → String → OptionDecl
decl long kind d = record { short = ""; long = long; kind = kind; default_value = some d }

abbrev short_decl : String → String → Kind → String → OptionDecl
short_decl short long kind d = record {
  short = short;
  long = long;
  kind = kind;
  default_value = some d;
}

unfoldable pub make_default_options : List OptionDecl
make_default_options =
    record { short = "h"; long = "help"; kind = bool_kind; default_value = none }
    ∷ record { short = "i"; long = "input"; kind = string_kind; default_value = none }
    ∷ decl "model" bool_kind "false"
    ∷ decl "verify" bool_kind "false"
    ∷ decl "real-time-lim" double_kind "0"
    ∷ decl "mem-lim" double_kind "0"
    ∷ decl "banner" bool_kind "false"
    ∷ decl "log-interval" uint32_kind "10"
    ∷ short_decl "v" "verbose" uint32_kind "1"
    ∷ short_decl "q" "quiet" bool_kind "false"
    ∷ short_decl "s" "solver" string_kind "kissat"
    ∷ short_decl "n" "nthreads" uint32_kind "0"
    ∷ short_decl "m" "margin" uint32_kind "20"
    ∷ short_decl "p" "period" uint64_kind "1000000"
    ∷ decl "non-det" bool_kind "false"
    ∷ decl "adjust-threads" uint32_kind "3"
    ∷ decl "fapp-clauses" uint32_kind "10000"
    ∷ decl "fapp-periods" uint32_kind "50"
    ∷ decl "adpt-prd" uint32_kind "0"
    ∷ decl "adpt-prd-lb" uint64_kind "0"
    ∷ decl "adpt-prd-ub" uint64_kind "0"
    ∷ decl "adpt-prd-smth" double_kind "0.1"
    ∷ decl "exp-lbdq-lim" double_kind "0.2"
    ∷ decl "exp-lits-lim" uint32_kind "150"
    ∷ decl "exp-lits-margin" double_kind "3"
    ∷ decl "ms-len" uint32_kind "10"
    ∷ decl "ms-simp" bool_kind "false"
    ∷ decl "gl-lbd" uint32_kind "7"
    ∷ decl "gl-len" uint32_kind "24"
    ∷ decl "gl-simp" bool_kind "false"
    ∷ decl "mc-lbd" uint32_kind "3"
    ∷ decl "mc-len" uint32_kind "0"
    ∷ decl "mc-simp" bool_kind "false"
    ∷ decl "ks-lbd" uint32_kind "3"
    ∷ decl "ks-stable" uint32_kind "1"
    ∷ decl "ks-elim" uint32_kind "50"
    ∷ decl "ks-pakis" bool_kind "false"
    ∷ []
