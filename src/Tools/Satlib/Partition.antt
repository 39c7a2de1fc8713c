-- ===== src/Tools/Satlib/Partition.antt =====
-- The datasets divide the results.
use sst_sat.Base.{
  ◌≡◌, refl, sym, ap, ◌∙◌, arith, Bool, false, Option, some, none, List, [], ◌∷◌, ◌++◌, append-nil,
  append_assoc, if◌then◌else◌,
}
use sst_sat.Base.Dict.{lookup-insert}
use sst_sat.Python.Text.{Text, Text_eq, eq_text, eq_text_iff}
use sst_sat.Log.Value.{Stats}
use sst_sat.Tools.Satlib.{
  classify_dataset, Groups, test_name, tests_in, place_result, group_results, no_groups,
}

abbrev is_set : Text → Option Text → Bool
is_set ds none = false
is_set ds (some t) = eq_text t ds

-- The results of a dataset, in their order, and the names of those that have none.
unfoldable pub results_in : {F : Type 0} → Text → List (Stats F) → List (Stats F)
results_in ds [] = []
results_in ds (r ∷ rs) =
    let rest = results_in ds rs in
    if is_set ds (classify_dataset (test_name r)) then r ∷ rest else rest

abbrev or_name : Option Text → Text → List Text → List Text
or_name none name names = name ∷ names
or_name (some ds) name names = names

unfoldable pub names_without : {F : Type 0} → List (Stats F) → List Text
names_without [] = []
names_without (r ∷ rs) = or_name (classify_dataset (test_name r)) (test_name r) (names_without rs)

or_name-append :
    (o : Option Text) (name : Text) (names : List Text)
    → or_name o name [] ++ names ≡ or_name o name names
or_name-append none name names = refl
or_name-append (some ds) name names = refl

module _ {F : Type 0} where
  only : Text → Option Text → Stats F → List (Stats F)
  only ds o r = if is_set ds o then r ∷ [] else []

  tests_in-place_result :
      (ds : Text) (o : Option Text) (r : Stats F) (g : Groups F)
      → tests_in ds (place_result o r g) ≡ tests_in ds g ++ only ds o r
  unfolding place_result only tests_in
  tests_in-place_result ds none r g = sym (append-nil (tests_in ds g))
  tests_in-place_result ds (some t) r g = ground (
    arith,
    lookup-insert t ds (tests_in t g ++ (r ∷ [])) g.datasets,
    eq_text_iff t ds,
    append-nil (tests_in ds g),
  )

  only-results_in :
      (ds : Text) (r : Stats F) (rs : List (Stats F))
      → only ds (classify_dataset (test_name r)) r ++ results_in ds rs ≡ results_in ds (r ∷ rs)
  unfolding only results_in
  only-results_in ds r rs = ground arith

  tests_in-group_results :
      (ds : Text) (rs : List (Stats F)) (g : Groups F)
      → tests_in ds (group_results rs g) ≡ tests_in ds g ++ results_in ds rs
  unfolding group_results results_in
  tests_in-group_results ds [] g = sym (append-nil (tests_in ds g))
  tests_in-group_results ds (r ∷ rs) g =
      let o = classify_dataset (test_name r) in
      tests_in-group_results ds rs (place_result o r g)
      ∙ ap (λ ts. ts ++ results_in ds rs) (tests_in-place_result ds o r g)
      ∙ append_assoc (tests_in ds g) (only ds o r) (results_in ds rs)
      ∙ ap (λ ts. tests_in ds g ++ ts) (only-results_in ds r rs)

  unclassified-place_result :
      (o : Option Text) (r : Stats F) (g : Groups F)
      → (place_result o r g).unclassified ≡ g.unclassified ++ or_name o (test_name r) []
  unfolding place_result
  unclassified-place_result none r g = refl
  unclassified-place_result (some ds) r g = sym (append-nil g.unclassified)

  unclassified-group_results :
      (rs : List (Stats F)) (g : Groups F)
      → (group_results rs g).unclassified ≡ g.unclassified ++ names_without rs
  unfolding group_results names_without
  unclassified-group_results [] g = sym (append-nil g.unclassified)
  unclassified-group_results (r ∷ rs) g =
      let o = classify_dataset (test_name r) in
      unclassified-group_results rs (place_result o r g)
      ∙ ap (λ ts. ts ++ names_without rs) (unclassified-place_result o r g)
      ∙ append_assoc g.unclassified (or_name o (test_name r) []) (names_without rs)
      ∙ ap (λ ts. g.unclassified ++ ts) (or_name-append o (test_name r) (names_without rs))

-- Each dataset has the results whose names are classified as it, in the order of the logs, and the
-- names that belong to no dataset are listed as such.
pub group_results-partition :
    {F : Type 0} (results : List (Stats F))
    → ((ds : Text) → tests_in ds (group_results results no_groups) ≡ results_in ds results)
      × ((group_results results no_groups).unclassified ≡ names_without results)
unfolding tests_in
group_results-partition results = (
  (λ ds. tests_in-group_results ds results no_groups),
  unclassified-group_results results no_groups,
)
