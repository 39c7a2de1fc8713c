-- ===== src/Results/Single/Order.antt =====
-- A result and what it is reclassified as stand in the same place when the results are sorted.
use sst_sat.Base.{
  ◌≡◌, sym, arith, Bool, true, false, some, List, [], ◌∷◌, ap₂, subst, if◌then◌else◌,
}
use sst_sat.Python.Text.{Text_eq}
use sst_sat.Python.Sorted.{insert_sorted, sorted, le_text}
use sst_sat.Log.Value.{Floats, Stats, ◌>>=◌, >>=-some}
use sst_sat.Log.Number.{Arithmetic}
use sst_sat.Results.Score.{le_case}
use sst_sat.Results.Single.{reclassify, reclassify_all}
use sst_sat.Results.Single.Marks.{case_of-reclassify}

-- Each result with what it is reclassified as, in the same order.
pub data Reclassified (fl : Floats) (ar : Arithmetic fl.Float) (timeout_seconds : fl.Float)
    : List (Stats fl.Float) → List (Stats fl.Float) → Type 0 where
  none_left : Reclassified fl ar timeout_seconds [] []
  next :
      {r q : Stats fl.Float} {rs qs : List (Stats fl.Float)}
      → reclassify fl ar timeout_seconds r ≡ some q
      → Reclassified fl ar timeout_seconds rs qs
      → Reclassified fl ar timeout_seconds (r ∷ rs) (q ∷ qs)

module _ (fl : Floats) (ar : Arithmetic fl.Float) (timeout_seconds : fl.Float) where
  reclassify_all-cons :
      (r : Stats fl.Float) (rs qs : List (Stats fl.Float))
      → reclassify_all fl ar timeout_seconds (r ∷ rs) ≡ some qs
      → (q : Stats fl.Float) × (rest : List (Stats fl.Float)) × (reclassify fl ar timeout_seconds r
          ≡ some q)
        × (reclassify_all fl ar timeout_seconds rs ≡ some rest)
        × (qs ≡ q ∷ rest)
  unfolding reclassify_all
  reclassify_all-cons r rs qs h =
      let (q, e, more) =
        >>=-some (reclassify fl ar timeout_seconds r)
          (λ q. reclassify_all fl ar timeout_seconds rs >>= (λ rest. some (q ∷ rest))) qs h in
      let (rest, e2, e3) =
        >>=-some (reclassify_all fl ar timeout_seconds rs) (λ rest. some (q ∷ rest)) qs more in
      (q, rest, e, e2, ground (arith, e3))

  pub reclassify_all-Reclassified :
      (rs qs : List (Stats fl.Float))
      → reclassify_all fl ar timeout_seconds rs ≡ some qs
      → Reclassified fl ar timeout_seconds rs qs
  unfolding reclassify_all
  reclassify_all-Reclassified [] qs h =
      subst (λ x. Reclassified fl ar timeout_seconds [] x) (ground arith) none_left
  reclassify_all-Reclassified (r ∷ rs) qs h =
      let (q, rest, e, e2, e3) = reclassify_all-cons r rs qs h in
      subst (λ x. Reclassified fl ar timeout_seconds (r ∷ rs) x) (sym e3)
        (next e (reclassify_all-Reclassified rs rest e2))

  Reclassified-if :
      {rs qs ss ts : List (Stats fl.Float)} (b c : Bool)
      → b ≡ c
      → Reclassified fl ar timeout_seconds rs qs
      → Reclassified fl ar timeout_seconds ss ts
      → Reclassified fl ar timeout_seconds (if b then rs else ss) (if c then qs else ts)
  Reclassified-if true true e h k = h
  Reclassified-if true false e h k = ground arith
  Reclassified-if false true e h k = ground arith
  Reclassified-if false false e h k = k

  Reclassified-insert_sorted :
      (r q : Stats fl.Float) {rs qs : List (Stats fl.Float)}
      → reclassify fl ar timeout_seconds r ≡ some q
      → Reclassified fl ar timeout_seconds rs qs
      → Reclassified fl ar timeout_seconds (insert_sorted le_case r rs) (insert_sorted le_case q qs)
  unfolding insert_sorted
  Reclassified-insert_sorted r q e none_left = next e none_left
  Reclassified-insert_sorted r q e (next {r = s} {q = t} d more) =
      Reclassified-if (le_case r s) (le_case q t)
        (sym (
          ap₂ le_text (case_of-reclassify fl ar timeout_seconds r q e)
            (case_of-reclassify fl ar timeout_seconds s t d)))
        (next e (next d more)) (next d (Reclassified-insert_sorted r q e more))

  pub Reclassified-sorted :
      {rs qs : List (Stats fl.Float)}
      → Reclassified fl ar timeout_seconds rs qs
      → Reclassified fl ar timeout_seconds (sorted le_case rs) (sorted le_case qs)
  unfolding sorted
  Reclassified-sorted none_left = none_left
  Reclassified-sorted (next {r = r} {q = q} e more) =
      Reclassified-insert_sorted r q e (Reclassified-sorted more)
