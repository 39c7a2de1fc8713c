-- ===== src/Tools/Satlib.antt =====
-- tools/compare_satlib.py: the datasets of the tests.
pub mod Partition
pub mod Table
use sst_sat.Base.{
  ℕ, zero, suc, ◌+◌, ◌-◌, ◌/◌, Bool, true, false, ◌||◌, Option, some, none, List, [], ◌∷◌, ◌++◌,
  length, take, if◌then◌else◌,
}
use sst_sat.Base.Int.{ℤ, pos}
use sst_sat.Base.Dict.{Dict, lookup, insert}
use sst_sat.Python.Text.{Text, Text_eq, codes, eq_text, starts_with, ends_with, lower}
use sst_sat.Python.Regex.{Regex, group, ◌⨟◌, lit, digits1, re_match, group_of}
use sst_sat.Log.Value.{Floats, Value, whole, real, text, bins, Stats, ◌>>=◌}
use sst_sat.Log.Number.{Arithmetic, figure, above_zero, sum_values, quotient, zero_float, text_in}
use mathlib.Core.Option.{get_or}

-- re.sub(r'\.cnf$', '', name): at the end, or before a line break that ends the name.
abbrev without_last : ℕ → Text → Text
without_last n t = take (length t - n) t

unfoldable pub without_cnf : Text → Text
without_cnf name =
    if ends_with (codes ".cnf") name
    then without_last 4 name
    else if ends_with (codes ".cnf\n") name
    then without_last 5 name ++ codes "\n"
    else name

-- The letters and the number that a name starts with.
numbered_set : Text → Regex → Text → Option Text
unfolding re_match group_of
numbered_set prefix pattern name = elim (re_match pattern name) [
  | none ↦ none
  | some m ↦ some (prefix ++ group_of 1 m)
]

unfoldable pub dataset_of : Text → Option Text
unfolding numbered_set
dataset_of name =
    if starts_with (codes "uuf") name
    then numbered_set (codes "UUF") (lit "uuf" ⨟ group 1 digits1) name
    else if starts_with (codes "uf") name
    then numbered_set (codes "UF") (lit "uf" ⨟ group 1 digits1) name
    else if starts_with (codes "qg") name
    then some (codes "QG")
    else if starts_with (codes "bmc") name
    then some (codes "BMC")
    else if starts_with (codes "hole") name
    then some (codes "HOLE")
    else if starts_with (codes "ii") name
    then some (codes "II")
    else if starts_with (codes "logistics") name
    then some (codes "LOGISTICS")
    else none

unfoldable pub classify_dataset : Text → Option Text
unfolding dataset_of without_cnf lower
classify_dataset test_name = dataset_of (without_cnf (lower test_name))

-- `datasets` and `unclassified`
pub record Groups (F : Type 0) : Type 0 where
  pub datasets : Dict Text (List (Stats F))
  pub unclassified : List Text

abbrev pub test_name : {F : Type 0} → Stats F → Text
unfolding lookup
test_name r = text_in (lookup (codes "test_case") r)

-- datasets.get(ds, [])
abbrev pub tests_in : {F : Type 0} → Text → Groups F → List (Stats F)
unfolding lookup
tests_in ds g = get_or (lookup ds g.datasets) []

-- datasets[ds].append(r), or unclassified.append(test_name)
unfoldable pub place_result : {F : Type 0} → Option Text → Stats F → Groups F → Groups F
unfolding insert tests_in test_name
place_result none r g = record g { unclassified = g.unclassified ++ (test_name r ∷ []) }
place_result (some ds) r g = record g {
  datasets = insert ds (tests_in ds g ++ (r ∷ [])) g.datasets;
}

unfoldable pub group_results : {F : Type 0} → List (Stats F) → Groups F → Groups F
unfolding place_result classify_dataset test_name
group_results [] g = g
group_results (r ∷ rs) g = group_results rs (place_result (classify_dataset (test_name r)) r g)

abbrev pub no_groups : {F : Type 0} → Groups F
no_groups = record { datasets = []; unclassified = [] }
