-- ===== src/Python/Sorted/Laws.antt =====
-- `sorted` returns an ascending rearrangement.
use mathlib.Core.List.{Perm}
use mathlib.Core.List.Perm
use sst_sat.Base.{◌≡◌, refl, ◌⊎◌, inl, inr, Bool, true, Bool-cases, List, [], ◌∷◌, arith}
use sst_sat.Python.Text.{Text}
use sst_sat.Python.Sorted.{insert_sorted, sorted, le_text}

module _ {ℓ} {A : Type ℓ} (le : A → A → Bool) where
  insert_sorted-perm : (x : A) (ys : List A) → Perm (insert_sorted le x ys) (x ∷ ys)
  unfolding insert_sorted
  insert_sorted-perm x [] = Perm.rfl
  insert_sorted-perm x (y ∷ ys) = elim (Bool-cases (le x y)) [
    | inl e ↦ rw (e, insert_sorted) Perm.rfl
    | inr e ↦
        rw (e, insert_sorted)
          (Perm.trans (Perm.cons y (insert_sorted-perm x ys)) (Perm.swap x y ys))
  ]

  pub sorted-perm : (xs : List A) → Perm (sorted le xs) xs
  unfolding sorted
  sorted-perm [] = Perm.rfl
  sorted-perm (x ∷ xs) =
      Perm.trans (insert_sorted-perm x (sorted le xs)) (Perm.cons x (sorted-perm xs))

  -- Neighbours are in order.
  abbrev pub Ascends : List A → Type 0
  Ascends [] = Unit {0}
  Ascends (x ∷ []) = Unit {0}
  Ascends (x ∷ y ∷ ys) = (le x y ≡ true) × Ascends (y ∷ ys)

  insert_sorted-Ascends :
      ((x y : A) → (le x y ≡ true) ⊎ (le y x ≡ true))
      → (x : A) (ys : List A) → Ascends ys
      → Ascends (insert_sorted le x ys)
  unfolding insert_sorted
  insert_sorted-Ascends total x [] h = tt
  insert_sorted-Ascends total x (y ∷ []) h = ground (arith, total x y)
  insert_sorted-Ascends total x (y ∷ z ∷ ys) h =
      ground (arith, total x y, insert_sorted-Ascends total x (z ∷ ys) h.1)

  pub sorted-Ascends :
      ((x y : A) → (le x y ≡ true) ⊎ (le y x ≡ true)) → (xs : List A) → Ascends (sorted le xs)
  unfolding sorted
  sorted-Ascends total [] = tt
  sorted-Ascends total (x ∷ xs) =
      insert_sorted-Ascends total x (sorted le xs) (sorted-Ascends total xs)

pub le_text_total : (s t : Text) → (le_text s t ≡ true) ⊎ (le_text t s ≡ true)
unfolding le_text
le_text_total [] t = inl refl
le_text_total (c ∷ s) [] = inr refl
le_text_total (c ∷ s) (d ∷ t) = ground (arith, le_text_total s t)
