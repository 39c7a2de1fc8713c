-- ===== src/Python/Sorted.antt =====
-- Python's `sorted`, which is stable: an insertion sort, over a Boolean order.
pub mod Laws
use sst_sat.Base.{ℕ, Bool, true, false, ◌&&◌, ◌||◌, List, [], ◌∷◌, ltb, ◌==◌, if◌then◌else◌}
use sst_sat.Python.Text.{Text}

module _ {ℓ} {A : Type ℓ} (le : A → A → Bool) where
  -- Before the first that is not smaller: `x` stood before its equals, and stays there.
  unfoldable pub insert_sorted : A → List A → List A
  insert_sorted x [] = x ∷ []
  insert_sorted x (y ∷ ys) =
      let rest = insert_sorted x ys in if le x y then x ∷ y ∷ ys else y ∷ rest

  unfoldable pub sorted : List A → List A
  unfolding insert_sorted
  sorted [] = []
  sorted (x ∷ xs) = insert_sorted x (sorted xs)

-- s <= t, for texts: by code points, a prefix first.
unfoldable pub le_text : Text → Text → Bool
le_text [] t = true
le_text (c ∷ s) [] = false
le_text (c ∷ s) (d ∷ t) = let rest = le_text s t in ltb c d || ((c == d) && rest)
