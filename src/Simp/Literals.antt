-- ===== src/Simp/Literals.antt =====
-- `INT_LIT` and its two inverses.
use dps_pos.Base.{
  ℕ, zero, suc, ◌≡◌, refl, sym, ap, ◌∙◌, Bool, true, false, not, Bool-cases, inl, inr,
}
use dps_pos.Base.Int.{ℤ, pos, negsuc}
use dps_pos.Base.Result.{ok}
use dps_pos.Simp.{SimpSolver, int_lit, to_lit, imported_lit}

-- What a literal is in the libraries: a variable with a sign, both of which `~` and `mkLit` keep to.
pub record LitLaws (k : SimpSolver) : Type 0 where
  pub var_mk : (v : ℕ) (b : Bool) → k.var (k.mk_lit v b) ≡ v
  pub sign_mk : (v : ℕ) (b : Bool) → k.sign (k.mk_lit v b) ≡ b
  pub var_neg : (l : k.Lit) → k.var (k.neg l) ≡ k.var l
  pub sign_neg : (l : k.Lit) → k.sign (k.neg l) ≡ not (k.sign l)
  pub same_lit : (l m : k.Lit) → k.var l ≡ k.var m → k.sign l ≡ k.sign m → l ≡ m

module _ {k : SimpSolver} (w : LitLaws k) where
  open k use {Lit, mk_lit, neg, var, sign}

  pub neg-mk_lit : (v : ℕ) → neg (mk_lit v false) ≡ mk_lit v true
  neg-mk_lit v =
      w.same_lit _ _ (w.var_neg _ ∙ w.var_mk v false ∙ sym (w.var_mk v true))
        (w.sign_neg _ ∙ ap not (w.sign_mk v false) ∙ sym (w.sign_mk v true))

  -- The translation that loads a formula and the one that takes imported clauses over agree.
  pub to_lit-imported_lit : (n : ℤ) → to_lit k n ≡ imported_lit k n
  unfolding to_lit imported_lit
  to_lit-imported_lit (pos zero) = refl
  to_lit-imported_lit (pos (suc v)) = refl
  to_lit-imported_lit (negsuc v) = ap ok (neg-mk_lit v)

  lit_of : (l : Lit) (b : Bool) → sign l ≡ b → mk_lit (var l) b ≡ l
  lit_of l b e = w.same_lit _ _ (w.var_mk (var l) b) (w.sign_mk (var l) b ∙ sym e)

  imported_back : (l : Lit) → imported_lit k (int_lit k l) ≡ ok l
  unfolding int_lit imported_lit
  imported_back l = elim (Bool-cases (sign l)) [
    | inl minus ↦ rw minus (ap ok (lit_of l true minus))
    | inr plus ↦ rw plus (ap ok (lit_of l false plus))
  ]

  -- A literal that one thread exports, as a signed number, is the same literal in the thread that
  -- takes it over, and in one that loads it.
  pub imported_lit-int_lit :
      (l : Lit) → (imported_lit k (int_lit k l) ≡ ok l) × (to_lit k (int_lit k l) ≡ ok l)
  imported_lit-int_lit l = (imported_back l, to_lit-imported_lit (int_lit k l) ∙ imported_back l)
