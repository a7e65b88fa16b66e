-- ===== src/Parallel/Options/Declared.antt =====
-- Every option that is read is declared, and with the type that it is read as.
use Prim.Native.String.{String}
use text.Mathlib.Text.{◌==◌}
use text.Mathlib.TextEquality.{eq_iff}
use dps_pos.Base.{
  ℕ, zero, suc, ◌≡◌, ◌≢◌, ◌||◌, ◌⊎◌, inl, inr, refl, sym, ◌∙◌, List, [], ◌∷◌, Bool, true, false,
  ◌&&◌, Option, none, some, length, ltb, if◌then◌else◌, All, Bool-cases, arith, ap, subst,
}
use dps_pos.Base
use dps_pos.Parallel.Options.Table.{
  Kind, string_kind, bool_kind, double_kind, uint32_kind, uint64_kind, OptionDecl,
  make_default_options,
}
use dps_pos.Parallel.Options.{
  Options, Value, string_value, bool_value, double_value, uint32_value, uint64_value, ParseResult,
  done, exits, as_string, as_bool, as_double, as_uint32, as_uint64, Setter, set_string, set_bool,
  set_double, set_uint32, set_uint64, set_unless, set_one, set_all, setters, set_input, use_parsed,
  set_options,
}

code : Kind → ℕ
code string_kind = 0
code bool_kind = 1
code double_kind = 2
code uint32_kind = 3
code uint64_kind = 4

of_code : ℕ → Kind
of_code zero = string_kind
of_code (suc zero) = bool_kind
of_code (suc (suc zero)) = double_kind
of_code (suc (suc (suc zero))) = uint32_kind
of_code (suc (suc (suc (suc n)))) = uint64_kind

of_code-code : (k : Kind) → of_code (code k) ≡ k
unfolding of_code code
of_code-code string_kind = refl
of_code-code bool_kind = refl
of_code-code double_kind = refl
of_code-code uint32_kind = refl
of_code-code uint64_kind = refl

code_injective : (a b : Kind) → code a ≡ code b → a ≡ b
code_injective a b e = sym (of_code-code a) ∙ ap of_code e ∙ of_code-code b

has_text : Option String → Bool
has_text none = false
has_text (some s) = true

has_text_lem : (x : Option String) → has_text x ≡ true → x ≢ none
unfolding has_text
has_text_lem none h = absurd (cc)
has_text_lem (some s) h = λ e. cc

-- The entry has this name and type, and a default value.
matches : OptionDecl → String → Kind → Bool
unfolding code
matches d name k =
    (d.long == name) && (Base.◌==◌ (code d.kind) (code k) && has_text d.default_value)

declares : List OptionDecl → String → Kind → Bool
unfolding matches
declares [] name k = false
declares (d ∷ ds) name k = matches d name k || declares ds name k

matches_lem :
    (d : OptionDecl) (name : String) (k : Kind)
    → matches d name k ≡ true
    → (d.long ≡ name) × (d.kind ≡ k) × (d.default_value ≢ none)
unfolding matches
matches_lem d name k h =
    let same : (d.long == name) ≡ true = ground (arith, h) in
    let kinds : Base.◌==◌ (code d.kind) (code k) ≡ true = ground (arith, h) in
    let text : has_text d.default_value ≡ true = ground (arith, h) in
    (
      (eq_iff d.long name).0 same,
      code_injective d.kind k (ground (arith, kinds)),
      has_text_lem d.default_value text,
    )

module _ {Double : Type 0} where
  abbrev pub kind_of : Value Double → Kind
  kind_of (string_value s) = string_kind
  kind_of (bool_value b) = bool_kind
  kind_of (double_value d) = double_kind
  kind_of (uint32_value n) = uint32_kind
  kind_of (uint64_value n) = uint64_kind

  -- What the parser's result has for a declared option: a value of its type, if it has a default.
  abbrev pub Given : ParseResult Double → OptionDecl → Type 0
  Given r d =
      (d.default_value ≡ none)
      ⊎ ((v : Value Double) × (r.get d.long ≡ some v) × (kind_of v ≡ d.kind))

  abbrev pub Understood : ParseResult Double → Type 0
  Understood r =
      All (Given r) make_default_options
      × ((ltb 0 (r.count "input") ≡ false)
          ⊎ ((s : String) × (r.get "input" ≡ some (string_value s))))

  declares_lem :
      (r : ParseResult Double) (ds : List OptionDecl) (name : String) (k : Kind)
      → All (Given r) ds
      → declares ds name k ≡ true
      → (v : Value Double) × (r.get name ≡ some v) × (kind_of v ≡ k)
  unfolding declares
  declares_lem r [] name k g h = cc
  declares_lem r (d ∷ ds) name k (g, gs) h = elim (Bool-cases (matches d name k)) [
    | inr other ↦ declares_lem r ds name k gs (ground (arith, h, other))
    | inl here ↦
        let (e, f, some_default) = matches_lem d name k here in
        elim g [
          | inl missing ↦ absurd (some_default missing)
          | inr x ↦ (x.0, ap r.get (sym e) ∙ x.1, x.2 ∙ f)
        ]
  ]

  -- `as<T>` of the value's own type gives something.
  AsDone : Kind → Value Double → Type 0
  AsDone string_kind v = (x : String) × (as_string (some v) ≡ done x)
  AsDone bool_kind v = (x : Bool) × (as_bool (some v) ≡ done x)
  AsDone double_kind v = (x : Double) × (as_double (some v) ≡ done x)
  AsDone uint32_kind v = (x : ℕ) × (as_uint32 (some v) ≡ done x)
  AsDone uint64_kind v = (x : ℕ) × (as_uint64 (some v) ≡ done x)

  kind_of-AsDone : (v : Value Double) → AsDone (kind_of v) v
  unfolding AsDone as_string as_bool as_double as_uint32 as_uint64
  kind_of-AsDone (string_value s) = (s, refl)
  kind_of-AsDone (bool_value b) = (b, refl)
  kind_of-AsDone (double_value d) = (d, refl)
  kind_of-AsDone (uint32_value n) = (n, refl)
  kind_of-AsDone (uint64_value n) = (n, refl)

  declares-AsDone :
      (r : ParseResult Double) (name : String) (k : Kind)
      → All (Given r) make_default_options
      → declares make_default_options name k ≡ true
      → (v : Value Double) × (r.get name ≡ some v) × AsDone k v
  declares-AsDone r name k g h =
      let (v, e, f) = declares_lem r make_default_options name k g h in
      (v, e, subst (λ x. AsDone x v) f (kind_of-AsDone v))

  -- What a setter reads is declared.
  reads : Setter Double → Bool
  reads (set_string name f) = declares make_default_options name string_kind
  reads (set_bool name f) = declares make_default_options name bool_kind
  reads (set_double name f) = declares make_default_options name double_kind
  reads (set_uint32 name f) = declares make_default_options name uint32_kind
  reads (set_uint64 name f) = declares make_default_options name uint64_kind
  reads (set_unless flag name f) =
      declares make_default_options flag bool_kind && declares make_default_options name uint32_kind

  all_read : List (Setter Double) → Bool
  unfolding reads
  all_read [] = true
  all_read (x ∷ xs) = reads x && all_read xs

setters-all_read : (Double : Type 0) → all_read (setters {Double = Double}) ≡ true
unfolding all_read setters declares make_default_options matches code has_text
setters-all_read Double = refl

module _ {Double : Type 0} where
  set_one_lem :
      (r : ParseResult Double) (x : Setter Double) (o : Options Double)
      → All (Given r) make_default_options
      → reads x ≡ true
      → (o' : Options Double) × (set_one r x o ≡ done o')
  unfolding reads set_one AsDone
  set_one_lem r (set_string name f) o g h =
      let (v, e, (x, a)) = declares-AsDone r name string_kind g h in (f x o, rw e (rw a refl))
  set_one_lem r (set_bool name f) o g h =
      let (v, e, (x, a)) = declares-AsDone r name bool_kind g h in (f x o, rw e (rw a refl))
  set_one_lem r (set_double name f) o g h =
      let (v, e, (x, a)) = declares-AsDone r name double_kind g h in (f x o, rw e (rw a refl))
  set_one_lem r (set_uint32 name f) o g h =
      let (v, e, (x, a)) = declares-AsDone r name uint32_kind g h in (f x o, rw e (rw a refl))
  set_one_lem r (set_uint64 name f) o g h =
      let (v, e, (x, a)) = declares-AsDone r name uint64_kind g h in (f x o, rw e (rw a refl))
  set_one_lem r (set_unless flag name f) o g h =
      let (v, e, (x, a)) = declares-AsDone r flag bool_kind g (ground (arith, h)) in
      let (w, e', (n, a')) = declares-AsDone r name uint32_kind g (ground (arith, h)) in
      rw e (
        rw a (elim (Bool-cases x) [
          | inl on ↦ rw on (f 0 o, refl)
          | inr off ↦ rw off (rw e' (rw a' (f n o, refl)))
        ]))

  set_all_lem :
      (r : ParseResult Double) (xs : List (Setter Double)) (o : Options Double)
      → All (Given r) make_default_options
      → all_read xs ≡ true
      → (o' : Options Double) × (set_all r xs o ≡ done o')
  unfolding all_read set_all
  set_all_lem r [] o g h = (o, refl)
  set_all_lem r (x ∷ xs) o g h =
      let (o1, run) = set_one_lem r x o g (ground (arith, h)) in
      let (o2, rest) = set_all_lem r xs o1 g (ground (arith, h)) in (o2, rw run rest)

  set_input_lem :
      (r : ParseResult Double) (o : Options Double)
      → Understood r
      → (o' : Options Double) × (set_input r o ≡ done o')
  unfolding set_input as_string
  set_input_lem r o (g, inl absent) = (o, rw absent refl)
  set_input_lem r o (g, inr (s, e)) = elim (Bool-cases (ltb 0 (r.count "input"))) [
    | inl given ↦ (record o { input_file = s }, rw given (rw e refl))
    | inr absent ↦ (o, rw absent refl)
  ]

  use_parsed_lem :
      (x : Option (ParseResult Double)) (o : Options Double)
      → ((r : ParseResult Double) → x ≡ some r → Understood r)
      → (use_parsed x o ≡ exits 0) ⊎ ((o' : Options Double) × (use_parsed x o ≡ done o'))
  unfolding use_parsed
  use_parsed_lem none o h = inl refl
  use_parsed_lem (some r) o h =
      let (o1, run) = set_input_lem r o (h r refl) in
      let (o2, rest) = set_all_lem r setters o1 (h r refl).0 (setters-all_read Double) in
      elim (Bool-cases (ltb 0 (r.count "help"))) [
        | inl help ↦ inl (rw help refl)
        | inr no_help ↦ elim (Bool-cases (ltb 0 (length r.unmatched))) [
          | inl wrong ↦ inl (rw no_help (rw wrong refl))
          | inr fine ↦ elim (Bool-cases (ltb 0 (r.count "banner"))) [
            | inl banner ↦ inl (rw no_help (rw fine (rw banner refl)))
            | inr go ↦ inr (o2, rw no_help (rw fine (rw go (rw run rest))))
          ]
        ]
      ]

  -- A parser that gives each declared option with a default a value of the declared type, and `input`
  -- a text if it is there: setting the options throws no exception. The run goes on with options, or
  -- it ends with exit code 0.
  pub set_options-Understood :
      (parse : List OptionDecl → List String → Option (ParseResult Double))
      → ((args : List String) (r : ParseResult Double)
          → parse make_default_options args ≡ some r
          → Understood r)
      → (argv : Option (List String)) (o : Options Double)
      → (set_options parse argv o ≡ exits 0)
        ⊎ ((o' : Options Double) × (set_options parse argv o ≡ done o'))
  unfolding set_options
  set_options-Understood parse h none o =
      use_parsed_lem (parse make_default_options ("DPS" ∷ [])) o (h _)
  set_options-Understood parse h (some argv) o =
      use_parsed_lem (parse make_default_options argv) o (h argv)
