-- ===== src/Tools/Runs.antt =====
-- Concrete runs of the tools that add up figures, with thousandths for the floats.
use sst_sat.Base.{ℕ, ◌*◌, ◌≡◌, refl, List, [], ◌∷◌, Option, some, none, length}
use sst_sat.Base.Int.{pos, ◌+ℤ◌, ◌*ℤ◌}
use sst_sat.Base.Dict.{lookup, has_key}
use sst_sat.Python.Text.{Text, Text_eq, codes, split_on, join, is_space, lower}
use sst_sat.Python.Number.{int, str, str_ℕ, digit_value}
use sst_sat.Log.Value.{Value, whole, real, bins, Stats, at, range, Bin, text}
use sst_sat.Log.Number.{add, multiply, quotient, above_zero, sum_values, fixed_text, number_text}
use sst_sat.Log.Thousandths.{thousandths, sums}
use sst_sat.Tools.Histogram.{total_of, aggregate_bins, collect_all_bin_keys, key_str, sort_bin_keys}
use mathlib.Core.List.{Perm}
use sst_sat.Tools.Histogram.Order.{AllInOrder, sort_bin_keys-AllInOrder}
use sst_sat.Tools.Histogram.Totals.{samples_in_all, aggregate_bins-sum}
use sst_sat.Tools.Coprocessor.{compute_coprocessor, csv_row, csv_header, Phases}
use sst_sat.Tools.Satlib.{classify_dataset, tests_in, group_results, no_groups}
use sst_sat.Tools.Satlib.Partition.{results_in, names_without, group_results-partition}
use sst_sat.Python.Regex.{is_digit, re_match, group_of}
use sst_sat.Results.Label.{aggregate_label}
use sst_sat.Tools.Breakdown.{breakdown_label}
use sst_sat.Tools.Breakdown.SameLabel.{breakdown_label-aggregate}
use sst_sat.Tools.CacheStats.{no_statistics, put_rows, statistic_in, parse_statistics}
use sst_sat.Tools.CacheStats.LastRow.{last_value, put_rows-last_value}

abbrev bin : ℕ → Bin ℕ
bin n = record { samples = pos n; percentage = 0 }

abbrev watchers : Text
watchers = codes "watchers_bins"

abbrev two_results : List (Stats ℕ)
two_results =
    ((watchers, bins ((at (pos 10), bin 4) ∷ (range (codes "3-7"), bin 5) ∷ [])) ∷ [])
    ∷ ((watchers, bins ((at (pos 2), bin 0) ∷ (at (pos 10), bin 6) ∷ [])) ∷ [])
    ∷ []

columns_test : collect_all_bin_keys two_results watchers ≡ codes "2" ∷ codes "10" ∷ codes "3-7" ∷ []
unfolding collect_all_bin_keys key_str str str_ℕ int split_on is_space
columns_test = refl

total_test : total_of (codes "10") (aggregate_bins two_results watchers) ≡ pos 10
unfolding aggregate_bins lookup str str_ℕ ◌+ℤ◌
total_test = refl

aggregate_bins-sum_example :
    total_of (codes "10") (aggregate_bins two_results watchers)
    ≡ samples_in_all watchers (codes "10") two_results
aggregate_bins-sum_example = aggregate_bins-sum two_results watchers (codes "10")

abbrev some_keys : List Text
some_keys = codes "out_of_bounds" ∷ codes "10" ∷ codes "3-7" ∷ codes "9" ∷ []

sort_bin_keys-AllInOrder_example :
    Perm (sort_bin_keys some_keys) some_keys × AllInOrder (sort_bin_keys some_keys)
sort_bin_keys-AllInOrder_example = sort_bin_keys-AllInOrder some_keys

sort_bin_keys_test :
    sort_bin_keys some_keys ≡ codes "9" ∷ codes "10" ∷ codes "3-7" ∷ codes "out_of_bounds" ∷ []
unfolding sort_bin_keys int split_on is_space
sort_bin_keys_test = refl

-- Phases of the coprocessor and of the hardware.
abbrev phases : ℕ → Phases (Value ℕ)
phases n = record {
  propagation = whole (pos n);
  learning = real (1500 * n);
  minimize = real 500;
  backtrack = real 0;
  deletion = real 0;
  decision = whole (pos 1);
}

line_of : Option Text → Text
line_of none = []
line_of (some t) = t

-- A comma in the name of a test adds a column to its line.
commas_test :
    length
      (split_on b',' (line_of (csv_row thousandths sums (codes "a,b") (phases 4) (phases 2)))).1
    ≡ length csv_header
unfolding split_on line_of csv_row above_zero quotient sum_values fixed_text number_text str str_ℕ
    ◌+ℤ◌ join
commas_test = refl

-- A cycle of 10 per round trip: 5 + 2 * (1 + 0 + 0 + 1) * 10
abbrev counted_run : Stats ℕ
counted_run = (codes "propagate_cycles", whole (pos 5)) ∷ (codes "decisions", whole (pos 1)) ∷ []

propagation_of : Option (Phases (Value ℕ) × Phases (Value ℕ)) → Value ℕ
propagation_of none = whole (pos 0)
propagation_of (some p) = p.0.propagation

coprocessor_test :
    propagation_of (compute_coprocessor thousandths sums (pos 10) 1000 counted_run) ≡ whole (pos 45)
unfolding compute_coprocessor propagation_of lookup add multiply ◌+ℤ◌ ◌*ℤ◌
coprocessor_test = refl

abbrev named : Text → Stats ℕ
named name = (codes "test_case", text name) ∷ []

abbrev satlib_results : List (Stats ℕ)
satlib_results =
    named (codes "UUF50-01.cnf")
    ∷ named (codes "hole7.cnf")
    ∷ named (codes "uf20")
    ∷ named (codes "x.cnf")
    ∷ []

classify_test : classify_dataset (codes "UUF50-01.cnf") ≡ some (codes "UUF50")
unfolding classify_dataset lower is_digit digit_value re_match group_of
classify_test = refl

group_results-partition_example :
    ((ds : Text)
      → tests_in ds (group_results satlib_results no_groups) ≡ results_in ds satlib_results)
    × ((group_results satlib_results no_groups).unclassified ≡ names_without satlib_results)
group_results-partition_example = group_results-partition satlib_results

breakdown_label-aggregate_example :
    breakdown_label (codes "TIMEOUT" ∷ codes "SAT" ∷ codes "ERROR" ∷ [])
    ≡ aggregate_label (codes "TIMEOUT" ∷ codes "SAT" ∷ codes "ERROR" ∷ [])
breakdown_label-aggregate_example =
    breakdown_label-aggregate (codes "TIMEOUT" ∷ codes "SAT" ∷ codes "ERROR" ∷ []) refl refl

abbrev statistic_row : Text → Text → List Text
statistic_row name value = codes "global_l1cache" ∷ name ∷ [] ∷ [] ∷ [] ∷ [] ∷ value ∷ []

abbrev statistic_rows : List (List Text)
statistic_rows =
    statistic_row (codes "CacheHits") (codes "3")
    ∷ statistic_row (codes "CacheMisses") (codes "1")
    ∷ (codes "global_l1cache" ∷ [])
    ∷ statistic_row (codes "CacheHits") (codes "4")
    ∷ []

put_rows-last_value_example :
    statistic_in
      (codes "global_l1cache")
      (codes "CacheHits")
      (put_rows statistic_rows no_statistics)
    ≡ last_value (codes "global_l1cache") (codes "CacheHits") statistic_rows
unfolding has_key
put_rows-last_value_example =
    put_rows-last_value (codes "global_l1cache") (codes "CacheHits") statistic_rows refl refl

last_value_test :
    last_value (codes "global_l1cache") (codes "CacheHits") statistic_rows ≡ some (codes "4")
unfolding last_value
last_value_test = refl

parse_statistics_test : length (parse_statistics thousandths sums ([] ∷ statistic_rows)).lines ≡ 20
unfolding parse_statistics lookup has_key int split_on is_space digit_value str str_ℕ
parse_statistics_test = refl
