-- ===== src/Log/Minisat.antt =====
-- `parse_minisat_log` of tools/unified_parser.py. The warnings that it prints are left out.
use sst_sat.Base.{Option, some, none, List, [], ◌∷◌, if◌then◌else◌}
use sst_sat.Base.Int.{ℤ, pos}
use sst_sat.Base.Dict.{insert}
use Prim.Native.String.{String}
use sst_sat.Python.Text.{Text, Text_eq, codes, has_text, basename}
use sst_sat.Python.Regex.{
  Regex, alt, last_end, group, ◌⨟◌, lit, lit_any_case, digit, digits1, digits_or_dots, spaces,
  times, search_re, re_sub, group_of,
}
use sst_sat.Log.Value.{◌>>=◌, Floats, whole, real, text, put_int}
use sst_sat.Log.Sections.{Figures, Table, find_figure, find_figures}
use sst_sat.Log.Format.{format_bytes}
use sst_sat.Log.Satsolver.{Step, run_steps}

abbrev pub empty_solver_result : (fl : Floats) → Text → Figures fl
empty_solver_result fl test_case =
    (codes "test_case", text test_case)
    ∷ (codes "result", text (codes "UNKNOWN"))
    ∷ (codes "variables", whole (pos 0))
    ∷ (codes "clauses", whole (pos 0))
    ∷ (codes "total_memory_bytes", whole (pos 0))
    ∷ (codes "total_memory_formatted", text (codes "0 B"))
    ∷ (codes "sim_time_ms", real (fl.of_ℕ 0))
    ∷ (codes "decisions", whole (pos 0))
    ∷ (codes "propagations", whole (pos 0))
    ∷ (codes "conflicts", whole (pos 0))
    ∷ (codes "learned", whole (pos 0))
    ∷ (codes "removed", whole (pos 0))
    ∷ (codes "db_reductions", whole (pos 0))
    ∷ (codes "minimized", whole (pos 0))
    ∷ (codes "restarts", whole (pos 0))
    ∷ []

-- `re.sub(r'\.log$', '', filename)`, and then the time stamp and the compression
unfoldable pub without_log : Text → Text
unfolding re_sub basename
without_log log_file_path = re_sub (lit ".log" ⨟ last_end) [] (basename log_file_path)

unfoldable pub base_test_case : Text → Text
unfolding without_log re_sub
base_test_case log_file_path =
    re_sub (lit "." ⨟ alt (lit "xz") (alt (lit "gz") (lit "bz2")) ⨟ last_end) [] (
      re_sub (lit "_" ⨟ times 8 digit ⨟ lit "_" ⨟ times 6 digit ⨟ last_end) []
        (without_log log_file_path))

abbrev memory_pattern : Regex
memory_pattern =
    lit "Memory used" ⨟ spaces ⨟ lit ":" ⨟ spaces ⨟ group 1 digits_or_dots ⨟ spaces ⨟ lit "MB"

-- `int(memory_mb * 1024 * 1024)`, where the log has a memory
unfoldable pub memory_bytes : (fl : Floats) → Text → Option ℤ
memory_bytes fl t = do
  memory_mb ← fl.parse t
  fl.truncate (fl.times (fl.times memory_mb (fl.of_ℕ 1024)) (fl.of_ℕ 1024))

unfoldable pub put_memory_bytes : (fl : Floats) → Text → Step fl
unfolding search_re group_of memory_bytes
put_memory_bytes fl content d = elim (search_re memory_pattern content) [
  | none ↦ some d
  | some m ↦ elim (memory_bytes fl (group_of 1 m)) [
    | none ↦ none
    | some n ↦ some (insert (codes "total_memory_bytes") (whole n) d)
  ]
]

unfoldable pub put_memory_text : (fl : Floats) → Text → Step fl
unfolding search_re group_of memory_bytes format_bytes
put_memory_text fl content d = elim (search_re memory_pattern content) [
  | none ↦ some d
  | some m ↦ do
    n ← memory_bytes fl (group_of 1 m)
    formatted ← format_bytes fl n
    some (insert (codes "total_memory_formatted") (text formatted) d)
]

abbrev cpu_pattern : Regex
cpu_pattern = lit_any_case "cpu time" ⨟ spaces ⨟ lit ":" ⨟ spaces ⨟ group 1 digits_or_dots

-- `result['sim_time_ms'] = cpu_seconds * 1000.0`
abbrev pub put_seconds : (fl : Floats) → Text → Text → Step fl
put_seconds fl key t d = do
  cpu_seconds ← fl.parse t
  some (insert key (real (fl.times cpu_seconds (fl.of_ℕ 1000))) d)

unfoldable pub put_cpu_time : (fl : Floats) → Text → Step fl
unfolding search_re group_of
put_cpu_time fl content d = elim (search_re (cpu_pattern ⨟ spaces ⨟ lit_any_case "s") content) [
  | some m ↦ put_seconds fl (codes "sim_time_ms") (group_of 1 m) d
  | none ↦ elim (search_re cpu_pattern content) [
    | some m ↦ put_seconds fl (codes "sim_time_ms") (group_of 1 m) d
    | none ↦ some d
  ]
]

-- `name\s*:\s*(\d+)` under IGNORECASE
abbrev pub counted_any_case : String → Regex
counted_any_case name = lit_any_case name ⨟ spaces ⨟ lit ":" ⨟ spaces ⨟ group 1 digits1

abbrev minisat_patterns : Table
minisat_patterns =
    (codes "decisions", counted_any_case "decisions")
    ∷ (codes "propagations", counted_any_case "propagations")
    ∷ (codes "conflicts", counted_any_case "conflicts")
    ∷ (codes "learned", counted_any_case "learned")
    ∷ (codes "removed", counted_any_case "removed")
    ∷ (codes "db_reductions", counted_any_case "db_reductions")
    ∷ (codes "minimized", counted_any_case "minimized")
    ∷ (codes "restarts", counted_any_case "restarts")
    ∷ []

unfoldable pub put_minisat_result : (fl : Floats) → Text → Step fl
put_minisat_result fl content d = some (
    if has_text (codes "UNSATISFIABLE") content
    then insert (codes "result") (text (codes "UNSAT")) d
    else if has_text (codes "SATISFIABLE") content
    then insert (codes "result") (text (codes "SAT")) d
    else if has_text (codes "INDETERMINATE") content
    then insert (codes "result") (text (codes "TIMEOUT")) d
    else d)

unfoldable pub minisat_steps : (fl : Floats) → Text → Text → List (Step fl)
unfolding base_test_case find_figure find_figures put_memory_bytes put_memory_text put_cpu_time
    put_minisat_result
minisat_steps fl log_file_path content =
    (λ d. some (insert (codes "test_case") (text (base_test_case log_file_path)) d))
    ∷ find_figure fl put_int (codes "variables")
        (lit "Number of variables:" ⨟ spaces ⨟ group 1 digits1) content
    ∷ find_figure fl put_int (codes "clauses") (lit "Number of clauses:" ⨟ spaces ⨟ group 1 digits1)
        content
    ∷ put_memory_bytes fl content
    ∷ put_memory_text fl content
    ∷ put_cpu_time fl content
    ∷ find_figures fl put_int minisat_patterns content
    ∷ put_minisat_result fl content
    ∷ []

-- What is there when an exception comes stays.
unfoldable pub parse_minisat_log : (fl : Floats) → Text → Text → Figures fl
unfolding run_steps
parse_minisat_log fl log_file_path content =
    (run_steps fl (minisat_steps fl log_file_path content) (empty_solver_result fl [])).0
