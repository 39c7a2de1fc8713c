-- ===== src/Log/File.antt =====
-- `parse_log_file` and `parse_log_directory` of tools/unified_parser.py.
use sst_sat.Base.{Bool, ◌&&◌, Option, some, none, List, [], ◌∷◌, if◌then◌else◌}
use sst_sat.Base.Int.{pos}
use sst_sat.Base.Dict.{insert}
use sst_sat.Python.Text.{Text, Text_eq, codes, has_text, lower, basename}
use sst_sat.Log.Value.{Floats, whole, real, text}
use sst_sat.Log.Sections.{Figures}
use sst_sat.Log.StatsCsv.{Row}
use sst_sat.Log.Format.{satsolver, minisat, kissat, unknown, detect_log_format}
use sst_sat.Log.Satsolver.{parse_satsolver_log}
use sst_sat.Log.Minisat.{parse_minisat_log, base_test_case, without_log}
use sst_sat.Log.Kissat.{parse_kissat_log}

-- What is returned for a log that is of no known format or cannot be read.
abbrev pub minimal_result : (fl : Floats) → Text → Figures fl
minimal_result fl test_case =
    (codes "test_case", text test_case)
    ∷ (codes "result", text (codes "UNKNOWN"))
    ∷ (codes "variables", whole (pos 0))
    ∷ (codes "clauses", whole (pos 0))
    ∷ (codes "total_memory_bytes", whole (pos 0))
    ∷ (codes "total_memory_formatted", text (codes "0 B"))
    ∷ (codes "sim_time_ms", real (fl.of_ℕ 0))
    ∷ []

-- A file: its path, the text that is read from it, if it can be read, and the .stats.csv files of its
-- directory by their names.
pub record LogFile : Type 0 where
  pub path : Text
  pub content : Option Text
  pub stats_csv : Text → Option (List Row)

unfoldable pub parse_log_file : (fl : Floats) → LogFile → Figures fl
unfolding detect_log_format parse_satsolver_log parse_minisat_log parse_kissat_log base_test_case
    without_log
parse_log_file fl f = elim f.content [
  | none ↦ minimal_result fl (without_log f.path)
  | some content ↦ elim (detect_log_format content) [
    | minisat ↦ parse_minisat_log fl f.path content
    | satsolver ↦ parse_satsolver_log fl f.path f.stats_csv content
    | kissat ↦ parse_kissat_log fl f.path content
    | unknown ↦ minimal_result fl (base_test_case f.path)
  ]
]

-- `exclude_summary and 'summary' in log_file.name.lower()`
unfoldable pub is_summary : Bool → LogFile → Bool
unfolding lower basename
is_summary exclude_summary f =
    exclude_summary && has_text (codes "summary") (lower (basename f.path))

-- The loop over the sorted files. A result is never an empty dict, so each is kept.
unfoldable pub parse_log_directory : (fl : Floats) → Bool → List LogFile → List (Figures fl)
unfolding parse_log_file is_summary
parse_log_directory fl exclude_summary [] = []
parse_log_directory fl exclude_summary (f ∷ fs) =
    let rest = parse_log_directory fl exclude_summary fs in
    if is_summary exclude_summary f
    then rest
    else insert (codes "log_path") (text f.path) (parse_log_file fl f) ∷ rest
