-- ===== src/Results/Runs.antt =====
-- Concrete results of runs, with thousandths for the floats.
use sst_sat.Base.{ℕ, ◌*◌, ◌≡◌, ltb, ◌⊎◌, refl, List, [], ◌∷◌, Option, some, map}
use sst_sat.Base.Lists.{All}
use sst_sat.Base.Dict.{lookup, insert}
use sst_sat.Python.Text.{Text, Text_eq, codes, split, is_space}
use sst_sat.Python.Number.{str, str_ℕ}
use sst_sat.Python.Sorted.{sorted, le_text}
use sst_sat.Log.Value.{real, text, Stats}
use sst_sat.Log.Number.{percent, or_default}
use sst_sat.Results.Score.{
  le_case, time_key, label_of, solved_label, penalty, sim_ms, Par2, compute_par2_and_solved,
}
use sst_sat.Results.Single.{single_run_score}
use sst_sat.Results.Single.Equivalence.{single_run_score-par2}
use sst_sat.Results.Label.{aggregate_label, has_no_figures}
use sst_sat.Results.Label.Order.{aggregate_label-perm}
use sst_sat.Results.Label.Agreement.{aggregate_label-solved}
use sst_sat.Results.Best.{SeedMap, best_contribution, best_row}
use sst_sat.Results.Best.Least.{NotBelow, Attained, best_contribution-least}
use sst_sat.Results.Best.Row.{best_row-best}
use sst_sat.Log.Format.{format_bytes}
use sst_sat.Results.Csv.{fieldnames, write_csv_report}
use sst_sat.Results.Csv.Keys.{KeysIn, write_csv_report-KeysIn}
use sst_sat.Results.Seeds.{SeedFolder, seed_label, seed_results, seed_scores}
use sst_sat.Results.Seeds.Names.{printed, own_score, seed_scores-names}
use sst_sat.Log.Thousandths.{thousandths, sums, less_at_most, irreflexive, transitive}
use mathlib.Core.List.Perm
use mathlib.Core.Option.{get_or}

-- A result with a name, a label and a time in milliseconds.
abbrev run : Text → Text → ℕ → Stats ℕ
run test label ms =
    (codes "test_case", text test)
    ∷ (codes "result", text label)
    ∷ (codes "sim_time_ms", real (ms * 1000))
    ∷ []

-- A solved run, one that is over the limit of 4 s, a timeout and an error.
abbrev runs : List (Stats ℕ)
runs =
    run (codes "b") (codes "SAT") 1500
    ∷ run (codes "a") (codes "UNSAT") 5000
    ∷ run (codes "d") (codes "TIMEOUT") 0
    ∷ run (codes "c") (codes "ERROR") 0
    ∷ []

abbrev limit : ℕ
limit = 4000

-- (1.5 s + 8 s + 8 s) / 3
runs_par2 :
    compute_par2_and_solved thousandths sums limit runs
    ≡ some (record { par2_seconds = 5833; solved_count = 1; excluded_tests = codes "c" ∷ [] })
unfolding compute_par2_and_solved lookup sim_ms
runs_par2 = refl

runs_single : single_run_score thousandths sums limit runs ≡ some (5833, 1)
unfolding single_run_score le_text lookup sim_ms insert
runs_single = refl

single_run_score-par2_example :
    (names : List Text) × (compute_par2_and_solved thousandths sums limit (sorted le_case runs)
      ≡ some (record { par2_seconds = 5833; solved_count = 1; excluded_tests = names }))
single_run_score-par2_example =
    single_run_score-par2 thousandths sums limit less_at_most refl runs 5833 1 runs_single

abbrev two_seeds : List Text
two_seeds = codes "SAT" ∷ codes "TIMEOUT" ∷ []

aggregate_label-perm_example :
    aggregate_label two_seeds ≡ aggregate_label (codes "TIMEOUT" ∷ codes "SAT" ∷ [])
aggregate_label-perm_example =
    aggregate_label-perm two_seeds (codes "TIMEOUT" ∷ codes "SAT" ∷ [])
      (Perm.swap (codes "TIMEOUT") (codes "SAT") [])

two_seeds_label : aggregate_label two_seeds ≡ codes "SAT 1"
unfolding aggregate_label str_ℕ
two_seeds_label = refl

both_sat : aggregate_label (codes "SAT" ∷ codes "SAT" ∷ []) ≡ codes "SAT"
unfolding aggregate_label
both_sat = refl

aggregate_label-solved_example :
    (codes "SAT" ≡ codes "SAT") × ((codes "SAT" ≡ codes "SAT") × Unit {0})
aggregate_label-solved_example =
    aggregate_label-solved (codes "SAT") (codes "SAT" ∷ codes "SAT" ∷ []) refl both_sat

-- The seeds with the results above, and with a faster run of the test b.
abbrev maps : List (SeedMap thousandths sums limit)
maps =
    ((codes "b", run (codes "b") (codes "SAT") 1500) ∷ [])
    ∷ ((codes "b", run (codes "b") (codes "SAT") 900) ∷ [])
    ∷ []

best_of_b :
    best_contribution thousandths sums limit (codes "b") maps (penalty thousandths sums limit)
    ≡ some 900000
unfolding best_contribution lookup sim_ms
best_of_b = refl

best_contribution-least_example :
    All (NotBelow thousandths sums limit irreflexive transitive (codes "b") 900000) maps
    × ((900000 ≡ penalty thousandths sums limit)
        ⊎ Attained thousandths sums limit (codes "b") 900000 maps)
best_contribution-least_example =
    best_contribution-least thousandths sums limit irreflexive transitive (codes "b") maps 900000
      best_of_b

abbrev row_of_b : Stats ℕ
unfolding best_row lookup sim_ms format_bytes str str_ℕ
row_of_b = get_or (best_row thousandths sums limit maps (codes "b")) []

best_row_of_b : best_row thousandths sums limit maps (codes "b") ≡ some row_of_b
unfolding best_row row_of_b lookup sim_ms format_bytes str str_ℕ
best_row_of_b = refl

best_row-best_example :
    (c : ℕ) × (best_contribution thousandths sums limit
        (codes "b")
        maps
        (penalty thousandths sums limit)
      ≡ some c)
    × (lookup time_key row_of_b ≡ some (real c))
    × (solved_label (label_of row_of_b) ≡ ltb c (penalty thousandths sums limit))
best_row-best_example =
    best_row-best thousandths sums limit irreflexive transitive less_at_most (codes "b") maps
      row_of_b refl best_row_of_b

abbrev score : Option (Text × ℕ)
score = some (codes "1/3", 5833)

abbrev rows : List (Stats ℕ)
unfolding write_csv_report le_text lookup insert str_ℕ
rows = get_or (write_csv_report thousandths sums runs score) []

rows_of_runs : write_csv_report thousandths sums runs score ≡ some rows
unfolding write_csv_report rows le_text lookup insert str_ℕ has_no_figures split is_space percent
    or_default
rows_of_runs = refl

write_csv_report-KeysIn_example : All (KeysIn (fieldnames runs)) rows
write_csv_report-KeysIn_example =
    write_csv_report-KeysIn thousandths sums runs score rows rows_of_runs

abbrev folder : Text → List (Stats ℕ) → SeedFolder ℕ
folder name results = record { name = name; results = results; stats_files = [] }

abbrev one_folder : List (SeedFolder ℕ)
one_folder = folder (codes "seed1") runs ∷ []

abbrev one_score : List (Text × Par2 ℕ)
one_score =
    (
      codes "seed1",
      record { par2_seconds = 5833; solved_count = 1; excluded_tests = codes "c" ∷ [] },
    )
    ∷ []

scores_of_one :
    seed_scores thousandths sums limit one_folder 0 (seed_results one_folder) ≡ some one_score
unfolding seed_scores lookup sim_ms
scores_of_one = refl

seed_scores-names_example :
    map (printed thousandths sums limit) one_score
    ≡ map (own_score thousandths sums limit) one_folder
seed_scores-names_example =
    seed_scores-names thousandths sums limit one_folder one_score (refl, tt) scores_of_one

-- A first folder without results gives its name to the scores of the next one.
names_with_gap : seed_label (folder (codes "seed0") [] ∷ one_folder) 0 ≡ codes "seed0"
unfolding seed_label
names_with_gap = refl
