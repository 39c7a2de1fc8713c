-- ===== src/Results/Seeds.antt =====
-- A folder with seeds, in tools/parse_results.py: the scores of the seeds, their names, the tests, and
-- what is written.
pub mod Names
use sst_sat.Base.{
  ℕ, zero, suc, ◌+◌, ◌-◌, Bool, true, false, ◌||◌, Option, some, none, List, [], ◌∷◌, ◌++◌, length,
  map, take, get_elem?, if◌then◌else◌,
}
use sst_sat.Base.Dict.{Dict, lookup}
use sst_sat.Python.Text.{Text, Text_eq, codes, ends_with, starts_with, eq_text, null}
use sst_sat.Python.Number.{str_ℕ}
use sst_sat.Python.Sorted.{sorted, le_text}
use sst_sat.Log.Value.{Floats, Stats, ◌>>=◌}
use sst_sat.Log.Number.{Arithmetic, Reading, float, refused, too_large, zero_float}
use sst_sat.Results.Score.{label_of, case_of, sim_ms, Par2, compute_par2_and_solved}
use sst_sat.Results.Best.{SeedMap, seed_map, best_score, best_results}
use sst_sat.Results.Aggregate.{aggregate_all}

-- A seed folder: its name, the results of its logs, and the names of its stats files.
pub record SeedFolder (F : Type 0) : Type 0 where
  pub name : Text
  pub results : List (Stats F)
  pub stats_files : List Text

-- The results of the folders that have some.
abbrev pub seed_results : {F : Type 0} → List (SeedFolder F) → List (List (Stats F))
seed_results [] = []
seed_results (d ∷ ds) = if null d.results then seed_results ds else d.results ∷ seed_results ds

-- seed_dirs[idx].name if idx < len(seed_dirs) else f"seed{idx}": the place in the list of all folders.
label_or : ℕ → {F : Type 0} → Option (SeedFolder F) → Text
unfolding str_ℕ
label_or n none = codes "seed" ++ str_ℕ n
label_or n (some d) = d.name

unfoldable pub seed_label : {F : Type 0} → List (SeedFolder F) → ℕ → Text
unfolding label_or
seed_label ds n = label_or n (get_elem? ds n)

abbrev has_case : Text → List Text → Bool
has_case t [] = false
has_case t (u ∷ us) = eq_text u t || has_case t us

abbrev add_case : Text → List Text → List Text
add_case t cases = if has_case t cases then cases else cases ++ (t ∷ [])

unfoldable pub add_cases : {F : Type 0} → List (Stats F) → List Text → List Text
add_cases [] cases = cases
add_cases (r ∷ rs) cases = add_cases rs (add_case (case_of r) cases)

-- name[:-10], for a name that ends with '.stats.csv'; an empty one is no test.
abbrev stats_case : Text → Text
stats_case name = take (length name - 10) name

unfoldable pub add_stats_cases : List Text → List Text → List Text
add_stats_cases [] cases = cases
add_stats_cases (name ∷ names) cases = add_stats_cases names (
    if ends_with (codes ".stats.csv") name
    then if null (stats_case name) then cases else add_case (stats_case name) cases
    else cases)

unfoldable pub cases_in : {F : Type 0} → List (SeedFolder F) → List Text → List Text
unfolding add_cases
cases_in [] cases = cases
cases_in (d ∷ ds) cases = cases_in ds (add_cases d.results cases)

unfoldable pub stats_cases_in : {F : Type 0} → List (SeedFolder F) → List Text → List Text
unfolding add_stats_cases
stats_cases_in [] cases = cases
stats_cases_in (d ∷ ds) cases = stats_cases_in ds (add_stats_cases d.stats_files cases)

-- `all_cases`
unfoldable pub all_cases : {F : Type 0} → List (SeedFolder F) → List Text
unfolding cases_in stats_cases_in
all_cases ds = stats_cases_in ds (cases_in ds [])

module _ (fl : Floats) (ar : Arithmetic fl.Float) (timeout_seconds : fl.Float) where
  -- The scores of the seeds, with the names that are printed.
  unfoldable pub seed_scores :
      List (SeedFolder fl.Float)
      → ℕ
      → List (List (Stats fl.Float))
      → Option (List (Text × Par2 fl.Float))
  unfolding seed_label compute_par2_and_solved
  seed_scores ds n [] = some []
  seed_scores ds n (rs ∷ rest) =
      compute_par2_and_solved fl ar timeout_seconds rs
      >>= (λ p. seed_scores ds (suc n) rest >>= (λ ps. some ((seed_label ds n, p) ∷ ps)))

  abbrev seed_maps : List (List (Stats fl.Float)) → List (SeedMap fl ar timeout_seconds)
  unfolding seed_map
  seed_maps [] = []
  seed_maps (rs ∷ rest) = seed_map fl ar timeout_seconds rs [] ∷ seed_maps rest

  abbrev with_excluded :
      List (SeedMap fl ar timeout_seconds)
      → List (Text × Par2 fl.Float)
      → List (SeedMap fl ar timeout_seconds × List Text)
  with_excluded (m ∷ ms) ((t, p) ∷ ps) = (m, p.excluded_tests) ∷ with_excluded ms ps
  with_excluded ms ps = []

  -- What is computed for a folder with seeds: the scores, the best-of-seeds score, and the rows of the
  -- report, which are those of the averages or, with --dump-best, those of the best seeds.
  pub record SeedReport : Type 0 where
    pub scores : List (Text × Par2 fl.Float)
    pub best : Option (fl.Float × ℕ)
    pub rows : List (Stats fl.Float)

  abbrev chosen_rows :
      Bool
      → List (SeedMap fl ar timeout_seconds)
      → List Text
      → List (Stats fl.Float)
      → Option (List (Stats fl.Float))
  unfolding best_results
  chosen_rows true maps cases averages = best_results fl ar timeout_seconds maps cases
  chosen_rows false maps cases averages = some averages

  -- The set of the tests is taken in the order of its first insertions.
  unfoldable pub seed_report : Bool → List (SeedFolder fl.Float) → Option SeedReport
  unfolding seed_scores seed_maps all_cases aggregate_all best_score chosen_rows sorted le_text
  seed_report dump_best ds =
      let results = seed_results ds in
      let maps = seed_maps results in
      let cases = all_cases ds in
      seed_scores ds 0 results >>= (λ scores.
        aggregate_all fl ar timeout_seconds maps (sorted le_text cases) >>= (λ averages.
          best_score fl ar timeout_seconds (with_excluded maps scores) cases >>= (λ best.
            chosen_rows dump_best maps cases averages
            >>= (λ rows. some (record { scores = scores; best = best; rows = rows })))))
