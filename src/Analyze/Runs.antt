-- ===== src/Analyze/Runs.antt =====
-- tools/analyze_summary.py on a small summary: tests and examples.
use sst_sat.Base.{ℕ, ◌≡◌, refl, false, not, ◌&&◌, ltb, Option, some, none, List, [], ◌∷◌}
use sst_sat.Base.Int.{pos}
use mathlib.Core.Bool.{xor}
use sst_sat.Python.Text.{Text, is_space, codes, lines, strip}
use sst_sat.Python.Number.{int}
use sst_sat.Python.Regex.{is_digit, is_word, re_match, group_of}
use sst_sat.Python.Sorted.{sorted, le_text}
use sst_sat.Base.Dict.{lookup, insert}
use sst_sat.Analyze.{
  has_test, add_run, read_line, read_lines, parse_summary, base_of, add_names, add_folders,
  infer_all_tests, missing_seeds, missing_runs, removal, Entries, Report, analyze, Completed,
}
use sst_sat.Analyze.Missing.{has_run, some_line_reports, analyze-has_run}
use mathlib.Core.Option.{get_or}
use sst_sat.Python.Number.{str_ℕ}
use sst_sat.Python.Path.{join_path}

abbrev summary_text : Text
summary_text =
    codes
      "Number of random seeds: 2\nFound 3 benchmark files to test\na.cnf (seed 0): PASSED in 3 s\nb.cnf (seed 1): FAILED\na.cnf (seed 0): PASSED\nc.cnf (seed 2): RUNNING\n"

abbrev a_done : Completed
a_done = (codes "a.cnf", pos 0 ∷ []) ∷ (codes "b.cnf", pos 1 ∷ []) ∷ []

summary_test : (parse_summary summary_text).completed ≡ a_done
unfolding parse_summary read_lines read_line re_match group_of add_run lookup insert int lines strip
    is_space is_digit xor is_word
summary_test = refl

abbrev folders : Entries
folders =
    (
      codes "seed0",
      some (codes "b.cnf.log" ∷ codes "a.cnf.stats.csv" ∷ codes "a.cnf.log" ∷ codes "note" ∷ []),
    )
    ∷ (codes "summary.txt", none)
    ∷ []

missing_of : Option Report → List (Text × ℕ)
missing_of none = []
missing_of (some r) = r.missing

analyze_test :
    missing_of (analyze false (codes "runs") folders (some summary_text))
    ≡ (codes "a.cnf", 1) ∷ (codes "b.cnf", 0) ∷ []
unfolding analyze parse_summary read_lines read_line re_match group_of add_run lookup insert int
    is_space is_digit xor is_word lines strip infer_all_tests add_folders add_names base_of sorted
    le_text missing_runs missing_seeds missing_of
analyze_test = refl

abbrev summary_report : Report
unfolding analyze parse_summary read_lines read_line re_match group_of add_run lookup insert int
    is_space is_digit xor is_word lines strip infer_all_tests add_folders add_names base_of sorted
    le_text missing_runs missing_seeds str_ℕ join_path removal
summary_report = get_or (analyze false (codes "runs") folders (some summary_text)) (record {
  seeds = 0;
  declared_tests = none;
  tests = [];
  completed_pairs = 0;
  expected_pairs = 0;
  missing = [];
  commands = [];
})

summary_reported : analyze false (codes "runs") folders (some summary_text) ≡ some summary_report
unfolding summary_report analyze parse_summary read_lines read_line re_match group_of add_run lookup
    insert int is_space is_digit xor is_word lines strip infer_all_tests add_folders add_names
    base_of sorted le_text missing_runs missing_seeds
summary_reported = refl

analyze-has_run_example : has_run (codes "a.cnf") 1 summary_report.missing ≡ (
    has_test (codes "a.cnf") summary_report.tests
    && (ltb 1 summary_report.seeds
        && not (some_line_reports (codes "a.cnf") 1 (lines summary_text))))
analyze-has_run_example =
    analyze-has_run false (codes "runs") summary_text folders summary_report summary_reported
      (codes "a.cnf") 1
