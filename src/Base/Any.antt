-- ===== src/Base/Any.antt =====
-- One of a list has a property.
use dps_pos.Base.{List, [], ◌∷◌, ◌++◌, ◌⊎◌, inl, inr}

module _ {ℓ} {A : Type ℓ} where
  abbrev pub Any : (A → Type 0) → List A → Type 0
  Any P [] = ⊥
  Any P (x ∷ xs) = P x ⊎ Any P xs

  pub Any-append : (P : A → Type 0) (xs ys : List A) → Any P xs ⊎ Any P ys → Any P (xs ++ ys)
  Any-append P [] ys (inl h) = absurd h
  Any-append P [] ys (inr h) = h
  Any-append P (x ∷ xs) ys (inl (inl h)) = inl h
  Any-append P (x ∷ xs) ys (inl (inr h)) = inr (Any-append P xs ys (inl h))
  Any-append P (x ∷ xs) ys (inr h) = inr (Any-append P xs ys (inr h))

  pub Any-append_inv : (P : A → Type 0) (xs ys : List A) → Any P (xs ++ ys) → Any P xs ⊎ Any P ys
  Any-append_inv P [] ys h = inr h
  Any-append_inv P (x ∷ xs) ys (inl h) = inl (inl h)
  Any-append_inv P (x ∷ xs) ys (inr h) = elim (Any-append_inv P xs ys h) [
    | inl g ↦ inl (inr g)
    | inr g ↦ inr g
  ]
