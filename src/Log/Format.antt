-- ===== src/Log/Format.antt =====
-- `detect_log_format` and `format_bytes` of tools/unified_parser.py, and `get_cache_size_from_directory`.
use sst_sat.Base.{
  ℕ, suc, ◌*◌, Bool, true, ◌&&◌, ◌||◌, Option, some, none, [], ◌∷◌, ◌++◌, if◌then◌else◌,
}
use sst_sat.Base.Tests.{ltb}
use sst_sat.Base.Int.{ℤ, pos, negsuc, negate}
use sst_sat.Base.Dict.{Dict, lookup}
use sst_sat.Python.Text.{Text, Text_eq, codes, has_text}
use sst_sat.Python.Number.{str, int}
use sst_sat.Python.Regex.{Regex, group, alt, ◌⨟◌, lit, optional, digits1, search_re, group_of}
use sst_sat.Log.Value.{Floats}
use mathlib.Core.Option

pub data LogFormat : Type 0 where
  satsolver minisat kissat unknown : LogFormat

unfoldable pub detect_log_format : Text → LogFormat
detect_log_format content =
    if has_text (codes "Using CNF file:") content
    then satsolver
    else if has_text (codes "Problem Statistics") content
        && has_text (codes "conflicts             :") content
    then minisat
    else if has_text (codes "Kissat SAT Solver") content
        || (has_text (codes "\ns SATISFIABLE") content
            || has_text (codes "\ns UNSATISFIABLE") content)
    then kissat
    else unknown

-- a < b, for a natural number b
abbrev below : ℤ → ℕ → Bool
below (pos n) b = ltb n b
below (negsuc n) b = true

-- A missing result is the OverflowError of a division.
unfoldable pub format_bytes : Floats → ℤ → Option Text
format_bytes fl n =
    let in_unit : ℕ → Text → Option Text =
      λ size suffix. Option.map (λ x. fl.one_decimal x ++ suffix) (fl.ratio n size) in
    if below n 1024
    then some (str n ++ codes " B")
    else if below n (1024 * 1024)
    then in_unit 1024 (codes " KB")
    else if below n (1024 * 1024 * 1024)
    then in_unit (1024 * 1024) (codes " MB")
    else in_unit (1024 * 1024 * 1024) (codes " GB")

abbrev multipliers : Dict Text ℕ
multipliers =
    (codes "KiB", 1024)
    ∷ (codes "KB", 1000)
    ∷ (codes "MiB", 1024 * 1024)
    ∷ (codes "MB", 1000 * 1000)
    ∷ (codes "GiB", 1024 * 1024 * 1024)
    ∷ (codes "GB", 1000 * 1000 * 1000)
    ∷ []

abbrev pub scaled : ℤ → ℕ → ℤ
scaled (pos n) k = pos (n * k)
scaled (negsuc n) k = negate (pos (suc n * k))

-- logs_(?:ddr_)?(\d+)([KMG]i?B)
abbrev size_pattern : Regex
size_pattern =
    lit "logs_"
    ⨟ optional (lit "ddr_")
    ⨟ group 1 digits1
    ⨟ group 2 (alt (lit "K") (alt (lit "M") (lit "G")) ⨟ optional (lit "i") ⨟ lit "B")

-- `none` is Python's None: the name has no size.
unfoldable pub get_cache_size_from_directory : Text → Option ℤ
unfolding search_re group_of lookup
get_cache_size_from_directory directory_name = elim (search_re size_pattern directory_name) [
  | none ↦ none
  | some m ↦
      Option.map
        (λ n. scaled n (elim (lookup (group_of 2 m) multipliers) [ none ↦ 1 | some k ↦ k ]))
        (int (group_of 1 m))
]
