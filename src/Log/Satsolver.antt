-- ===== src/Log/Satsolver.antt =====
-- `parse_satsolver_log` of tools/unified_parser.py. The warnings that it prints are left out.
use sst_sat.Base.{Bool, true, false, ◌||◌, Option, some, none, List, [], ◌∷◌, ◌++◌, if◌then◌else◌}
use sst_sat.Base.Int.{ℤ, pos, ◌+ℤ◌}
use sst_sat.Base.Dict.{lookup, insert}
use Prim.Native.String.{String}
use sst_sat.Python.Text.{Text, Text_eq, codes, eq_text, has_text, upper, basename, splitext}
use sst_sat.Python.Number.{int}
use sst_sat.Python.Regex.{
  Regex, one, lazy, alt, last_end, group, ◌⨟◌, lit, lit_any_case, plus, digit, digits1,
  digits_or_dots, any_but_newline, spaces, is_word, times, search_re, re_match, group_of,
}
use sst_sat.Log.Value.{◌>>=◌, Floats, whole, real, text, bins, put_int, update}
use sst_sat.Log.Sections.{
  Figures, parse_solver_statistics, parse_clauses_fragmentation, parse_cycle_statistics,
}
use sst_sat.Log.Caches.{
  find_columns, Column, parse_cache_statistics, parse_l1_cache_statistics,
  parse_aggregate_cache_statistics,
}
use sst_sat.Log.Histogram.{parse_histogram}
use sst_sat.Log.Activities.{
  parse_propagation_detail_statistics, parse_directed_prefetcher_statistics,
  parse_conflict_learning_statistics, parse_reduced_clause_access_statistics,
  parse_coprocessor_raw_statistics,
}
use sst_sat.Log.StatsCsv.{Row, parse_stats_csv_for_prefetch}
use sst_sat.Log.Format.{format_bytes}

-- A statement that changes the dict or raises. It changes it last.
abbrev pub Step : Floats → Type 0
Step fl = Figures fl → Option (Figures fl)

-- The body of the `try`: the dict where it ends, and if it ends with an exception.
unfoldable pub run_steps : (fl : Floats) → List (Step fl) → Figures fl → Figures fl × Bool
run_steps fl [] d = (d, false)
run_steps fl (s ∷ ss) d = elim (s d) [ none ↦ (d, true) | some d' ↦ run_steps fl ss d' ]

abbrev pub empty_result : (fl : Floats) → Figures fl
empty_result fl =
    (codes "test_case", text [])
    ∷ (codes "result", text [])
    ∷ (codes "variables", whole (pos 0))
    ∷ (codes "clauses", whole (pos 0))
    ∷ (codes "total_memory_bytes", whole (pos 0))
    ∷ (codes "total_memory_formatted", text [])
    ∷ (codes "sim_time_ms", real (fl.of_ℕ 0))
    ∷ []

-- (.+?)_(sat|unsat)_\d{8}_\d{6}\.log$
abbrev name_pattern : Regex
name_pattern =
    group 1 (any_but_newline ⨟ lazy any_but_newline)
    ⨟ lit "_"
    ⨟ group 2 (alt (lit "sat") (lit "unsat"))
    ⨟ lit "_"
    ⨟ times 8 digit
    ⨟ lit "_"
    ⨟ times 6 digit
    ⨟ lit ".log"
    ⨟ last_end

unfoldable pub put_name : (fl : Floats) → Text → Step fl
unfolding re_match group_of basename splitext upper
put_name fl log_file_path d =
    let filename = basename log_file_path in
    elim (re_match name_pattern filename) [
      | some m ↦ some (
          insert (codes "result") (text (upper (group_of 2 m)))
            (insert (codes "test_case") (text (group_of 1 m)) d))
      | none ↦ some (insert (codes "test_case") (text (splitext filename)) d)
    ]

abbrev problem_pattern : Regex
problem_pattern = lit "MAIN-> Problem: vars=" ⨟ group 1 digits1 ⨟ lit " clauses=" ⨟ group 2 digits1

abbrev pub problem_columns : (fl : Floats) → List (Column fl)
problem_columns fl = (codes "variables", (1, put_int)) ∷ (codes "clauses", (2, put_int)) ∷ []

-- `front-> Size: \d+ things, (\d+) bytes`
abbrev memory_of : String → String → Regex
memory_of front things =
    lit front
    ⨟ lit "-> Size: "
    ⨟ digits1
    ⨟ lit " "
    ⨟ lit things
    ⨟ lit ", "
    ⨟ group 1 digits1
    ⨟ lit " bytes"

abbrev memory_patterns : List Regex
memory_patterns =
    memory_of "VAR" "variables"
    ∷ memory_of "WATCH" "watches"
    ∷ memory_of "WATCH" "watch node blocks"
    ∷ memory_of "CLAUSES" "clause pointers"
    ∷ memory_of "CLAUSES" "clause structs"
    ∷ memory_of "HEAP" "decision variables"
    ∷ memory_of "HEAP" "indices"
    ∷ memory_of "VAR_ACT" "var activities"
    ∷ []

unfoldable pub total_bytes : List Regex → Text → ℤ → Option ℤ
unfolding search_re group_of
total_bytes [] content n = some n
total_bytes (r ∷ rs) content n = elim (search_re r content) [
  | none ↦ total_bytes rs content n
  | some m ↦ elim (int (group_of 1 m)) [ none ↦ none | some k ↦ total_bytes rs content (n +ℤ k) ]
]

unfoldable pub put_memory : (fl : Floats) → Text → Step fl
unfolding total_bytes
put_memory fl content d = do
  n ← total_bytes memory_patterns content (pos 0)
  some (insert (codes "total_memory_bytes") (whole n) d)

unfoldable pub put_formatted_memory : (fl : Floats) → Text → Step fl
unfolding total_bytes format_bytes
put_formatted_memory fl content d = do
  n ← total_bytes memory_patterns content (pos 0)
  formatted ← format_bytes fl n
  some (insert (codes "total_memory_formatted") (text formatted) d)

-- What a log says about its run.
abbrev pub is_complete : Text → Bool
is_complete content = has_text (codes "Simulation is complete") content

abbrev pub has_timeout : Text → Bool
has_timeout content = has_text (codes "====================[ Timeout Reached") content

abbrev pub has_sat : Text → Bool
has_sat content = has_text (codes "SATISFIABLE: All variables assigned") content

abbrev pub has_unsat : Text → Bool
has_unsat content = has_text (codes "UNSATISFIABLE: conflict at level 0") content

unfoldable pub has_error : Text → Bool
unfolding search_re
has_error content = elim (search_re (alt (lit_any_case "fatal") (lit_any_case "error")) content) [
  | none ↦ false
  | some m ↦ true
]

unfoldable pub result_type : Text → Text
unfolding has_error
result_type content =
    if is_complete content
    then (if has_sat content
        then codes "SAT"
        else if has_unsat content
        then codes "UNSAT"
        else if has_timeout content
        then codes "TIMEOUT"
        else codes "UNKNOWN")
    else if has_error content
    then codes "ERROR"
    else codes "UNKNOWN"

unfoldable pub put_result : (fl : Floats) → Text → Step fl
unfolding result_type
put_result fl content d = some (insert (codes "result") (text (result_type content)) d)

abbrev pub time_pattern : Regex
time_pattern =
    lit "Simulation is complete, simulated time: "
    ⨟ group 1 digits_or_dots
    ⨟ spaces
    ⨟ group 2 (plus (one is_word))

-- Milliseconds, for a unit of time.
unfoldable pub in_ms : (fl : Floats) → Text → fl.Float → fl.Float
in_ms fl time_unit time_val =
    if eq_text time_unit (codes "us")
    then fl.times time_val fl.thousandth
    else if eq_text time_unit (codes "s")
    then fl.times time_val (fl.of_ℕ 1000)
    else time_val

unfoldable pub put_time : (fl : Floats) → Text → Step fl
unfolding search_re group_of in_ms
put_time fl content d = elim (search_re time_pattern content) [
  | none ↦ some d
  | some m ↦ elim (fl.parse (group_of 1 m)) [
    | none ↦ none
    | some x ↦ some (insert (codes "sim_time_ms") (real (in_ms fl (group_of 2 m) x)) d)
  ]
]

-- result['test_case']
unfoldable pub test_case_of : (fl : Floats) → Figures fl → Text
unfolding lookup
test_case_of fl d = elim (lookup (codes "test_case") d) [
  | none ↦ []
  | some v ↦ elim v [ text t ↦ t | whole n ↦ [] | real x ↦ [] | bins b ↦ [] ]
]

-- The rows of a file in the directory of the log are found by its name.
unfoldable pub put_prefetch : (fl : Floats) → (Text → Option (List Row)) → Step fl
unfolding parse_stats_csv_for_prefetch test_case_of update
put_prefetch fl stats_csv d = some (
    update d
      (parse_stats_csv_for_prefetch fl (stats_csv (test_case_of fl d ++ codes ".stats.csv"))))

-- `result.update(…)`
abbrev pub put_all : (fl : Floats) → Option (Figures fl) → Step fl
put_all fl none d = none
put_all fl (some e) d = some (update d e)

-- The calls of `result.update`, in their order.
unfoldable pub section_steps : (fl : Floats) → Text → List (Option (Figures fl))
section_steps fl content =
    parse_solver_statistics fl content
    ∷ parse_l1_cache_statistics fl content
    ∷ parse_cache_statistics fl content "L2"
    ∷ parse_aggregate_cache_statistics fl content
    ∷ parse_clauses_fragmentation fl content
    ∷ parse_cycle_statistics fl content
    ∷ parse_histogram fl content "Parallel Watchers Histogram" (codes "watchers")
    ∷ parse_histogram fl content "Parallel Variables Histogram" (codes "variables")
    ∷ parse_histogram fl content "Watchers Occupancy Histogram" (codes "watchers_occupancy")
    ∷ parse_histogram fl content "Watcher Blocks Visited Histogram" (codes "watcher_blocks_visited")
    ∷ parse_propagation_detail_statistics fl content
    ∷ parse_directed_prefetcher_statistics fl content
    ∷ parse_reduced_clause_access_statistics fl content
    ∷ parse_conflict_learning_statistics fl content
    ∷ parse_coprocessor_raw_statistics fl content
    ∷ []

abbrev pub steps_of : (fl : Floats) → List (Option (Figures fl)) → List (Step fl)
steps_of fl [] = []
steps_of fl (e ∷ es) = put_all fl e ∷ steps_of fl es

-- The dict after the sections, where the result is ERROR or UNKNOWN: the name and the result.
unfoldable pub keep_two : (fl : Floats) → Figures fl → Figures fl
unfolding test_case_of
keep_two fl d = elim (lookup (codes "result") d) [
  | none ↦ d
  | some v ↦ elim v [
    | text t ↦
        if eq_text t (codes "ERROR") || eq_text t (codes "UNKNOWN")
        then (codes "test_case", text (test_case_of fl d)) ∷ (codes "result", text t) ∷ []
        else d
    | whole n ↦ d
    | real x ↦ d
    | bins b ↦ d
  ]
]

unfoldable pub log_steps : (fl : Floats) → Text → (Text → Option (List Row)) → Text → List (Step fl)
unfolding put_name find_columns put_memory put_formatted_memory put_result put_time put_prefetch
log_steps fl log_file_path stats_csv content =
    put_name fl log_file_path
    ∷ find_columns fl problem_pattern (problem_columns fl) content
    ∷ put_memory fl content
    ∷ put_formatted_memory fl content
    ∷ put_result fl content
    ∷ put_time fl content
    ∷ put_prefetch fl stats_csv
    ∷ steps_of fl (section_steps fl content)

unfoldable pub parse_satsolver_log :
    (fl : Floats) → Text → (Text → Option (List Row)) → Text → Figures fl
unfolding run_steps keep_two
parse_satsolver_log fl log_file_path stats_csv content =
    let run = run_steps fl (log_steps fl log_file_path stats_csv content) (empty_result fl) in
    if run.1 then insert (codes "result") (text (codes "ERROR")) run.0 else keep_two fl run.0
