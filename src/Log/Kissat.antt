-- ===== src/Log/Kissat.antt =====
-- `parse_kissat_log` of tools/unified_parser.py. The warnings that it prints are left out.
use sst_sat.Base.{
  ℕ, ◌*◌, Bool, true, false, not, ◌&&◌, ◌||◌, Option, some, none, List, [], ◌∷◌, ◌++◌, leb, ltb,
  ◌==◌, if◌then◌else◌,
}
use sst_sat.Base.Int.{ℤ, pos, is_positive}
use sst_sat.Base.Dict.{lookup, insert}
use Prim.Native.String.{String}
use sst_sat.Python.Text.{Text, Text_eq, codes, eq_text, has_text, is_space, upper}
use sst_sat.Python.Number.{int}
use sst_sat.Python.Regex.{
  Regex, Found, one, star, lazy, alt, group, line_start, line_end, boundary, ◌⨟◌, lit, lit_any_case,
  plus, optional, digits1, any_but_newline, spaces, spaces1, search_re, finditer, group_of,
}
use sst_sat.Log.Value.{◌>>=◌, Floats, Value, whole, real, text, bins}
use sst_sat.Log.Sections.{Figures}
use sst_sat.Log.Caches.{find_columns}
use sst_sat.Log.Format.{format_bytes, scaled}
use sst_sat.Log.Satsolver.{Step, run_steps, problem_columns}
use sst_sat.Log.Minisat.{empty_solver_result, without_log, put_seconds}

-- [0-9], [0-9]*\.?[0-9]+ and [0-9][0-9,]*
abbrev ascii_digit : Regex
ascii_digit = one (λ c. leb b'0' c && leb c b'9')

abbrev fraction : Regex
fraction = star ascii_digit ⨟ optional (lit ".") ⨟ plus ascii_digit

abbrev with_commas : Regex
with_commas = ascii_digit ⨟ star (alt ascii_digit (lit ","))

unfoldable pub without_commas : Text → Text
without_commas [] = []
without_commas (c ∷ t) = let rest = without_commas t in if c == b',' then rest else c ∷ rest

-- An int, a float, or None.
unfoldable pub parse_number : (fl : Floats) → Text → Option (Value fl.Float)
unfolding without_commas
parse_number fl t = elim (int (without_commas t)) [
  | some n ↦ some (whole n)
  | none ↦ elim (fl.parse (without_commas t)) [ some x ↦ some (real x) | none ↦ none ]
]

-- `if isinstance(v, (int, float)): result[key] = int(v)`
unfoldable pub put_count : (fl : Floats) → Text → Text → Step fl
unfolding parse_number
put_count fl key t d = elim (parse_number fl t) [
  | none ↦ some d
  | some v ↦ elim v [
    | whole n ↦ some (insert key (whole n) d)
    | real x ↦ elim (fl.truncate x) [ none ↦ none | some n ↦ some (insert key (whole n) d) ]
    | text u ↦ some d
    | bins b ↦ some d
  ]
]

-- `if isinstance(rate, (int, float)): result[key] = float(rate)`
unfoldable pub put_rate : (fl : Floats) → Text → Text → Step fl
unfolding parse_number
put_rate fl key t d = elim (parse_number fl t) [
  | none ↦ some d
  | some v ↦ elim v [
    | whole n ↦ elim (fl.ratio n 1) [ none ↦ none | some x ↦ some (insert key (real x) d) ]
    | real x ↦ some (insert key (real x) d)
    | text u ↦ some d
    | bins b ↦ some d
  ]
]

-- `^\s*s\s+name` under MULTILINE
abbrev status_line : String → Regex
status_line name = line_start ⨟ spaces ⨟ lit "s" ⨟ spaces1 ⨟ lit name

unfoldable pub put_status : (fl : Floats) → Text → Step fl
unfolding search_re
put_status fl content d = elim (search_re (status_line "UNSATISFIABLE") content) [
  | some m ↦ some (insert (codes "result") (text (codes "UNSAT")) d)
  | none ↦ elim (search_re (status_line "SATISFIABLE") content) [
    | some m ↦ some (insert (codes "result") (text (codes "SAT")) d)
    | none ↦ some d
  ]
]

abbrev sizes : Regex
sizes = lit "p" ⨟ spaces1 ⨟ lit "cnf" ⨟ spaces1 ⨟ group 1 digits1 ⨟ spaces1 ⨟ group 2 digits1

abbrev parsed_pattern : Regex
parsed_pattern = lit "parsed '" ⨟ sizes ⨟ lit "'"

unfoldable pub put_sizes : (fl : Floats) → Text → Step fl
unfolding search_re find_columns
put_sizes fl content d = elim (search_re parsed_pattern content) [
  | some m ↦ find_columns fl parsed_pattern (problem_columns fl) content d
  | none ↦ find_columns fl (boundary ⨟ sizes ⨟ boundary) (problem_columns fl) content d
]

-- ^\s*c\s+([0-9]*\.?[0-9]+)\s+100\.00\s*%\s+total\s*$ and ^\s*c\s.\s+([0-9]*\.?[0-9]+)\s+(\d+)\b
abbrev total_line : Regex
total_line =
    line_start
    ⨟ spaces
    ⨟ lit "c"
    ⨟ spaces1
    ⨟ group 1 fraction
    ⨟ spaces1
    ⨟ lit "100.00"
    ⨟ spaces
    ⨟ lit "%"
    ⨟ spaces1
    ⨟ lit "total"
    ⨟ spaces
    ⨟ line_end

abbrev progress_line : Regex
progress_line =
    line_start
    ⨟ spaces
    ⨟ lit "c"
    ⨟ one is_space
    ⨟ any_but_newline
    ⨟ spaces1
    ⨟ group 1 fraction
    ⨟ spaces1
    ⨟ group 2 digits1
    ⨟ boundary

-- prog_matches[-1]
abbrev last_found : List Found → Option Found
last_found [] = none
last_found (m ∷ ms) = elim (last_found ms) [ none ↦ some m | some n ↦ some n ]

-- `try: … except Exception: pass`
abbrev or_pass : (fl : Floats) → Option (Figures fl) → Figures fl → Figures fl
or_pass fl none d = d
or_pass fl (some e) d = e

unfoldable pub put_runtime : (fl : Floats) → Text → Step fl
unfolding search_re finditer group_of
put_runtime fl content d = elim (search_re total_line content) [
  | some m ↦ put_seconds fl (codes "sim_time_ms") (group_of 1 m) d
  | none ↦ elim (last_found (finditer progress_line content)) [
    | none ↦ some d
    | some m ↦ some (or_pass fl (put_seconds fl (codes "sim_time_ms") (group_of 1 m) d) d)
  ]
]

abbrev space_or_dash : Regex
space_or_dash = alt (lit "-") (lit " ")

abbrev unit : Regex
unit =
    alt (lit_any_case "mib")
      (alt (lit_any_case "mb") (alt (lit_any_case "gib") (lit_any_case "gb")))

abbrev resident_bytes : Regex
resident_bytes =
    lit_any_case "maximum"
    ⨟ space_or_dash
    ⨟ lit_any_case "resident"
    ⨟ space_or_dash
    ⨟ lit_any_case "set"
    ⨟ space_or_dash
    ⨟ lit_any_case "size"
    ⨟ spaces
    ⨟ lit ":"
    ⨟ spaces
    ⨟ group 1 digits1
    ⨟ spaces
    ⨟ lit_any_case "bytes"
    ⨟ optional (spaces1 ⨟ group 2 digits1 ⨟ spaces ⨟ group 3 unit)

abbrev resident_unit : Regex
resident_unit =
    lit_any_case "maximum"
    ⨟ spaces1
    ⨟ lit_any_case "resident"
    ⨟ spaces1
    ⨟ lit_any_case "set"
    ⨟ spaces1
    ⨟ lit_any_case "size"
    ⨟ lazy any_but_newline
    ⨟ lit ":"
    ⨟ spaces
    ⨟ group 1 fraction
    ⨟ spaces
    ⨟ group 2 unit

-- int(val * 1024 * 1024), and with one more factor for GiB
unfoldable pub in_bytes : (fl : Floats) → Text → fl.Float → Option ℤ
in_bytes fl name val =
    let kilo = fl.of_ℕ 1024 in
    if eq_text name (codes "MIB") || eq_text name (codes "MB")
    then fl.truncate (fl.times (fl.times val kilo) kilo)
    else if eq_text name (codes "GIB") || eq_text name (codes "GB")
    then fl.truncate (fl.times (fl.times (fl.times val kilo) kilo) kilo)
    else fl.truncate val

abbrev larger : ℤ → ℤ → ℤ
larger (pos m) (pos n) = if ltb m n then pos n else pos m
larger m n = if is_positive n then n else m

-- The largest number of the MB column.
unfoldable pub max_mb : List Found → Option ℤ
unfolding group_of
max_mb [] = none
max_mb (m ∷ ms) = elim (int (group_of 2 m)) [
  | none ↦ max_mb ms
  | some n ↦ elim (max_mb ms) [ none ↦ some n | some k ↦ some (larger n k) ]
]

-- The memory: no figure, a figure, or an exception; and if its text may fail without an exception.
pub data Memory : Type 0 where
  no_memory failed : Memory
  memory : Bool → ℤ → Memory

abbrev memory_or_failed : Option ℤ → Memory
memory_or_failed none = failed
memory_or_failed (some n) = memory false n

unfoldable pub table_memory : Text → Memory
unfolding finditer max_mb
table_memory content =
    elim (has_text (codes "seconds  switched") content
      && has_text (codes "MB reductions") content) [
        | false ↦ no_memory
        | true ↦ elim (max_mb (finditer progress_line content)) [
          | none ↦ no_memory
          | some n ↦ memory false (scaled n (1024 * 1024))
        ]
      ]

unfoldable pub peak_memory : (fl : Floats) → Text → Memory
unfolding search_re group_of upper in_bytes table_memory
peak_memory fl content = elim (search_re resident_bytes content) [
  | some m ↦ elim (int (group_of 1 m)) [ none ↦ no_memory | some n ↦ memory true n ]
  | none ↦ elim (search_re resident_unit content) [
    | some m ↦
        memory_or_failed (do val ← fl.parse (group_of 1 m); in_bytes fl (upper (group_of 2 m)) val)
    | none ↦ table_memory content
  ]
]

unfoldable pub put_peak_bytes : (fl : Floats) → Text → Step fl
unfolding peak_memory
put_peak_bytes fl content d = elim (peak_memory fl content) [
  | no_memory ↦ some d
  | failed ↦ none
  | memory guarded n ↦ some (insert (codes "total_memory_bytes") (whole n) d)
]

unfoldable pub put_peak_text : (fl : Floats) → Text → Step fl
unfolding peak_memory format_bytes
put_peak_text fl content d = elim (peak_memory fl content) [
  | no_memory ↦ some d
  | failed ↦ none
  | memory guarded n ↦ elim (format_bytes fl n) [
    | some formatted ↦ some (insert (codes "total_memory_formatted") (text formatted) d)
    | none ↦ if guarded then some d else none
  ]
]

-- `^\s*c\s*name\s*:\s*([0-9][0-9,]*)` under MULTILINE and IGNORECASE, and with the rate
abbrev count_line : String → Regex
count_line name =
    line_start
    ⨟ spaces
    ⨟ lit_any_case "c"
    ⨟ spaces
    ⨟ lit_any_case name
    ⨟ spaces
    ⨟ lit ":"
    ⨟ spaces
    ⨟ group 1 with_commas

abbrev rate_line : String → Regex
rate_line name =
    count_line name
    ⨟ spaces1
    ⨟ group 2 fraction
    ⨟ spaces1
    ⨟ lit_any_case "per"
    ⨟ spaces1
    ⨟ lit_any_case "second"

-- A figure under a pattern.
unfoldable pub put_found : (fl : Floats) → Regex → ℕ → (Text → Step fl) → Text → Step fl
unfolding search_re group_of
put_found fl r n put content d = elim (search_re r content) [
  | none ↦ some d
  | some m ↦ put (group_of n m) d
]

unfoldable pub put_counted : (fl : Floats) → String → Text → Step fl
unfolding search_re group_of put_found put_count
put_counted fl name content d = elim (search_re (rate_line name) content) [
  | some m ↦ put_count fl (codes name) (group_of 1 m) d
  | none ↦ put_found fl (count_line name) 1 (put_count fl (codes name)) content d
]

unfoldable pub put_counted_rate : (fl : Floats) → String → Text → Step fl
unfolding put_found put_rate
put_counted_rate fl name content d =
    put_found fl (rate_line name) 2 (put_rate fl (codes name ++ codes "_per_sec")) content d

-- The figures of a dict, where they have the type.
unfoldable pub real_at : (fl : Floats) → Text → Figures fl → Option fl.Float
unfolding lookup
real_at fl key d = elim (lookup key d) [
  | none ↦ none
  | some v ↦ elim v [ real x ↦ some x | whole n ↦ none | text t ↦ none | bins b ↦ none ]
]

unfoldable pub whole_at : (fl : Floats) → Text → Figures fl → Option ℤ
unfolding lookup
whole_at fl key d = elim (lookup key d) [
  | none ↦ none
  | some v ↦ elim v [ whole n ↦ some n | real x ↦ none | text t ↦ none | bins b ↦ none ]
]

abbrev no_time : (fl : Floats) → Option fl.Float → Bool
no_time fl none = true
no_time fl (some x) = fl.is_zero x || fl.at_most_zero x

-- `(props / float(rate)) * 1000.0`
abbrev derived_time : (fl : Floats) → ℤ → fl.Float → Step fl
derived_time fl props rate d = elim (fl.over props rate) [
  | none ↦ none
  | some x ↦ some (insert (codes "sim_time_ms") (real (fl.times x (fl.of_ℕ 1000))) d)
]

unfoldable pub put_derived_time : (fl : Floats) → Step fl
unfolding real_at whole_at
put_derived_time fl d = elim (no_time fl (real_at fl (codes "sim_time_ms") d)) [
  | false ↦ some d
  | true ↦ elim (real_at fl (codes "propagations_per_sec") d) [
    | none ↦ some d
    | some rate ↦ elim (whole_at fl (codes "propagations") d) [
      | none ↦ some d
      | some props ↦ elim (not (fl.is_zero rate) && is_positive props) [
        | true ↦ derived_time fl props rate d
        | false ↦ some d
      ]
    ]
  ]
]

-- The text of the memory is never empty here, so the last statement of the body does nothing.
unfoldable pub kissat_steps : (fl : Floats) → Text → List (Step fl)
unfolding put_status put_sizes put_runtime put_peak_bytes put_peak_text put_counted put_counted_rate
    put_found put_derived_time
kissat_steps fl content =
    put_status fl content
    ∷ put_sizes fl content
    ∷ put_runtime fl content
    ∷ put_peak_bytes fl content
    ∷ put_peak_text fl content
    ∷ put_counted fl "conflicts" content
    ∷ put_counted_rate fl "conflicts" content
    ∷ put_counted fl "decisions" content
    ∷ put_counted_rate fl "decisions" content
    ∷ put_counted fl "propagations" content
    ∷ put_counted_rate fl "propagations" content
    ∷ put_found fl (count_line "restarts") 1 (put_count fl (codes "restarts")) content
    ∷ put_found fl (count_line "reductions" ⨟ boundary) 1 (put_count fl (codes "db_reductions"))
        content
    ∷ put_derived_time fl
    ∷ []

unfoldable pub parse_kissat_log : (fl : Floats) → Text → Text → Figures fl
unfolding run_steps without_log
parse_kissat_log fl log_file_path content =
    (run_steps fl (kissat_steps fl content) (empty_solver_result fl (without_log log_file_path))).0
