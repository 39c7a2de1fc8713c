-- ===== src/Log/Runs.antt =====
-- Concrete runs of the log parser, with decimal fractions for the floats.
use sst_sat.Base.{
  ℕ, zero, suc, ◌+◌, ◌*◌, ◌/◌, ◌%◌, ◌≡◌, ◌⊎◌, refl, true, List, ◌∷◌, ◌++◌, Option, none, some,
  length, ◌==◌,
}
use sst_sat.Base.Int.{ℤ, pos, negsuc}
use sst_sat.Base.Dict.{lookup, insert}
use sst_sat.Python.Text.{Text, Text_eq, codes, partition, is_space}
use sst_sat.Python.Number.{int, str_ℕ, digit_value}
use sst_sat.Log.Value.{Floats, text}
use sst_sat.Log.StatsCsv.{Row}
use sst_sat.Python.Text.{lower}
use sst_sat.Python.Regex.{is_digit, is_word, folds_to}
use sst_sat.Log.Sections.{
  in_section, parse_solver_statistics, parse_clauses_fragmentation, parse_cycle_statistics,
}
use sst_sat.Log.Caches.{parse_l1_cache_statistics, parse_aggregate_cache_statistics}
use sst_sat.Log.Histogram.{parse_histogram}
use sst_sat.Log.Activities.{
  parse_propagation_detail_statistics, parse_directed_prefetcher_statistics,
  parse_reduced_clause_access_statistics, parse_conflict_learning_statistics,
  parse_coprocessor_raw_statistics,
}
use sst_sat.Log.Satsolver.{
  log_steps, section_steps, parse_satsolver_log, result_type, is_complete, has_sat,
}
use sst_sat.Log.Keys.Sections.{result_key}
use sst_sat.Base.{map, [], ◌∷◌}
use sst_sat.Log.File.{LogFile, parse_log_directory}
use sst_sat.Log.Outcome.{parse_satsolver_log-result_type, parse_satsolver_log_sat}
use mathlib.Core.Option

abbrev ten_to : ℕ → ℕ
ten_to zero = 1
ten_to (suc k) = 10 * ten_to k

abbrev magnitude : ℤ → ℕ
magnitude (pos n) = n
magnitude (negsuc n) = suc n

-- (m, k) is m / 10 ^ k.
abbrev decimals : Floats
decimals = record {
  Float = ℕ × ℕ;
  parse = λ t.
      let parts = partition b'.' t in
      Option.map (λ n. (magnitude n, length parts.1)) (int (parts.0 ++ parts.1));
  of_ℕ = λ n. (n, 0);
  thousandth = (1, 3);
  times = λ x y. (x.0 * y.0, x.1 + y.1);
  ratio = λ n k. some (magnitude n * 10 / k, 1);
  over = λ n x. some (magnitude n * ten_to (x.1 + 3) / x.0, 3);
  is_zero = λ x. x.0 == 0;
  at_most_zero = λ x. x.0 == 0;
  truncate = λ x. some (pos (x.0 / ten_to x.1));
  one_decimal = λ x.
      let tenths = x.0 * 10 / ten_to x.1 in str_ℕ (tenths / 10) ++ (b'.' ∷ str_ℕ (tenths % 10));
}

abbrev a_log : Text
a_log =
    codes "SATISFIABLE: All variables assigned\nSimulation is complete, simulated time: 1.5 us\n"

abbrev no_csv : Text → Option (List Row)
no_csv t = none

parse_satsolver_log-result_type_example :
    (lookup result_key (parse_satsolver_log decimals (codes "logs/uf20.log") no_csv a_log)
      ≡ some (text (result_type a_log)))
    ⊎ (lookup result_key (parse_satsolver_log decimals (codes "logs/uf20.log") no_csv a_log)
        ≡ some (text (codes "ERROR")))
parse_satsolver_log-result_type_example =
    parse_satsolver_log-result_type decimals (codes "logs/uf20.log") no_csv a_log

a_log_sat :
    lookup result_key (parse_satsolver_log decimals (codes "logs/uf20.log") no_csv a_log)
    ≡ some (text (codes "SAT"))
unfolding parse_satsolver_log lookup log_steps is_digit digit_value is_space is_word int partition
    section_steps parse_solver_statistics in_section parse_l1_cache_statistics
    parse_aggregate_cache_statistics parse_clauses_fragmentation parse_cycle_statistics
    parse_histogram parse_propagation_detail_statistics parse_directed_prefetcher_statistics
    parse_reduced_clause_access_statistics parse_conflict_learning_statistics
    parse_coprocessor_raw_statistics lower folds_to insert
a_log_sat = refl

parse_satsolver_log_sat_example : (is_complete a_log ≡ true) × (has_sat a_log ≡ true)
parse_satsolver_log_sat_example =
    parse_satsolver_log_sat decimals (codes "logs/uf20.log") no_csv a_log a_log_sat

-- A summary, and a file that cannot be read.
abbrev some_files : List LogFile
some_files =
    record { path = codes "logs/Summary.log"; content = none; stats_csv = no_csv }
    ∷ record { path = codes "logs/b.log"; content = none; stats_csv = no_csv }
    ∷ []

-- A file that cannot be read has a result, too.
parse_log_directory_test :
    map (lookup (codes "log_path")) (parse_log_directory decimals true some_files)
    ≡ some (text (codes "logs/b.log")) ∷ []
unfolding parse_log_directory lookup insert folds_to
parse_log_directory_test = refl
