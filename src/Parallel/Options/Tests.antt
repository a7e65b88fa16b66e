-- ===== src/Parallel/Options/Tests.antt =====
-- The options of a run, with texts in place of floating-point numbers.
use Prim.Native.String.{String}
use dps_pos.Base.{◌≡◌, refl, ◌⊎◌, inl, inr, subst, List, [], ◌∷◌, Option, none, some}
use dps_pos.Parallel.Options.Table.{OptionDecl, make_default_options}
use dps_pos.Parallel.Options.{Options, defaults, ParseResult, done, exits, quiet, set_options}
use dps_pos.Parallel.Options.Declared.{Understood, set_options-Understood}
use dps_pos.Parallel.Options.Applied.{parsed, set_options-parsed}

abbrev standard : Options String
standard = defaults "0" "0.1" "0.2" "3"

-- Four threads, and a longer limit for Glucose.
abbrev wanted : Options String
wanted = record standard { input_file = "a.cnf"; num_threads = 4; gl_len_lim = 30 }

silent : (quiet wanted).verbose_lv ≡ 0
unfolding quiet
silent = refl

set_options-parsed_example :
    set_options (λ decls args. some (parsed wanted)) (some ("DPS" ∷ "-n" ∷ "4" ∷ [])) standard
    ≡ done wanted
set_options-parsed_example = set_options-parsed wanted standard ("DPS" ∷ "-n" ∷ "4" ∷ [])

abbrev parse : List OptionDecl → List String → Option (ParseResult String)
parse decls args = some (parsed wanted)

parsed-Understood : Understood (parsed wanted)
unfolding make_default_options
parsed-Understood = (
  (
    inl refl,
    (
      inl refl,
      (
        inr (_, refl, refl),
        (
          inr (_, refl, refl),
          (
            inr (_, refl, refl),
            (
              inr (_, refl, refl),
              (
                inr (_, refl, refl),
                (
                  inr (_, refl, refl),
                  (
                    inr (_, refl, refl),
                    (
                      inr (_, refl, refl),
                      (
                        inr (_, refl, refl),
                        (
                          inr (_, refl, refl),
                          (
                            inr (_, refl, refl),
                            (
                              inr (_, refl, refl),
                              (
                                inr (_, refl, refl),
                                (
                                  inr (_, refl, refl),
                                  (
                                    inr (_, refl, refl),
                                    (
                                      inr (_, refl, refl),
                                      (
                                        inr (_, refl, refl),
                                        (
                                          inr (_, refl, refl),
                                          (
                                            inr (_, refl, refl),
                                            (
                                              inr (_, refl, refl),
                                              (
                                                inr (_, refl, refl),
                                                (
                                                  inr (_, refl, refl),
                                                  (
                                                    inr (_, refl, refl),
                                                    (
                                                      inr (_, refl, refl),
                                                      (
                                                        inr (_, refl, refl),
                                                        (
                                                          inr (_, refl, refl),
                                                          (
                                                            inr (_, refl, refl),
                                                            (
                                                            inr (_, refl, refl),
                                                            (
                                                            inr (_, refl, refl),
                                                            (
                                                            inr (_, refl, refl),
                                                            (
                                                            inr (_, refl, refl),
                                                            (
                                                            inr (_, refl, refl),
                                                            (
                                                            inr (_, refl, refl),
                                                            (
                                                            inr (_, refl, refl),
                                                            (inr (_, refl, refl), tt),
                                                            ),
                                                            ),
                                                            ),
                                                            ),
                                                            ),
                                                            ),
                                                            ),
                                                          ),
                                                        ),
                                                      ),
                                                    ),
                                                  ),
                                                ),
                                              ),
                                            ),
                                          ),
                                        ),
                                      ),
                                    ),
                                  ),
                                ),
                              ),
                            ),
                          ),
                        ),
                      ),
                    ),
                  ),
                ),
              ),
            ),
          ),
        ),
      ),
    ),
  ),
  inr ("a.cnf", refl),
)

parse-Understood : (r : ParseResult String) → some (parsed wanted) ≡ some r → Understood r
parse-Understood r e = let same : parsed wanted ≡ r = cc in subst Understood same parsed-Understood

set_options-Understood_example :
    (set_options parse none standard ≡ exits 0)
    ⊎ ((o : Options String) × (set_options parse none standard ≡ done o))
set_options-Understood_example =
    set_options-Understood parse (λ args. parse-Understood) none standard
