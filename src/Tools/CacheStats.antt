-- ===== src/Tools/CacheStats.antt =====
-- tools/parse_stats.py: the hits and the misses of the caches in a file of statistics. The rows are
-- what `csv.reader` makes of the file.
pub mod LastRow
use sst_sat.Base.{
  Bool, true, false, ◌&&◌, ◌||◌, Option, some, none, List, [], ◌∷◌, ◌++◌, if◌then◌else◌,
}
use sst_sat.Base.Dict.{Dict, lookup, insert, has_key}
use sst_sat.Python.Text.{Text, Text_eq, codes, eq_text}
use sst_sat.Python.Number.{str}
use sst_sat.Log.Value.{Floats}
use sst_sat.Log.Number.{Arithmetic, zero_float}
use mathlib.Core.Option
use mathlib.Core.Option.{get_or}

-- `cache_stats`
abbrev pub CacheStats : Type 0
CacheStats = Dict Text (Dict Text Text)

abbrev pub no_statistics : CacheStats
no_statistics =
    (codes "global_l1cache", []) ∷ (codes "global_l2cache", []) ∷ (codes "global_l3cache", []) ∷ []

-- The component, the statistic and the value of a row, which has at least seven columns.
unfoldable pub columns : List Text → Option (Text × (Text × Text))
columns (component ∷ statistic ∷ a ∷ b ∷ c ∷ d ∷ value ∷ row) = some (component, (statistic, value))
columns row = none

abbrev pub is_counted : Text → Bool
is_counted statistic =
    eq_text statistic (codes "CacheHits") || eq_text statistic (codes "CacheMisses")

-- cache_stats[component]
abbrev pub statistics_of : Text → CacheStats → Dict Text Text
unfolding lookup
statistics_of component stats = get_or (lookup component stats) []

unfoldable pub put_row : Option (Text × (Text × Text)) → CacheStats → CacheStats
unfolding insert has_key statistics_of
put_row none stats = stats
put_row (some (component, (statistic, value))) stats =
    if has_key component stats && is_counted statistic
    then insert component (insert statistic value (statistics_of component stats)) stats
    else stats

unfoldable pub put_rows : List (List Text) → CacheStats → CacheStats
unfolding put_row columns
put_rows [] stats = stats
put_rows (row ∷ rows) stats = put_rows rows (put_row (columns row) stats)

abbrev pub statistic_in : Text → Text → CacheStats → Option Text
unfolding lookup statistics_of
statistic_in component statistic stats = lookup statistic (statistics_of component stats)

-- What is printed, and whether no exception ends it. The line for the exception is left out.
pub record Output : Type 0 where
  pub lines : List Text
  pub complete : Bool

-- A line that is none is one whose text raises an exception.
unfoldable pub print_lines : List (Option Text) → Output
print_lines [] = record { lines = []; complete = true }
print_lines (none ∷ ls) = record { lines = []; complete = false }
print_lines (some t ∷ ls) =
    let rest = print_lines ls in record { lines = t ∷ rest.lines; complete = rest.complete }

module _ (fl : Floats) (ar : Arithmetic fl.Float) where
  -- (misses / total) * 100 if total > 0 else 0.0
  abbrev rate_of : fl.Float → fl.Float → fl.Float
  rate_of x total =
      if ar.less (zero_float fl ar) total
      then fl.times (ar.divided x total) (fl.of_ℕ 100)
      else zero_float fl ar

  -- f"{title}{int(x)}"
  abbrev int_line : Text → fl.Float → Option Text
  int_line title x = Option.map (λ n. title ++ str n) (fl.truncate x)

  abbrev percent_line : Text → fl.Float → Option Text
  percent_line title x = some (title ++ ar.fixed 2 x ++ codes "%")

  unfoldable pub level_lines : Text → fl.Float → fl.Float → List (Option Text)
  level_lines level hits misses =
      let total = ar.plus hits misses in
      some (codes "\n" ++ level ++ codes " Statistics:")
      ∷ int_line (codes "  Cache Hits:       ") hits
      ∷ int_line (codes "  Cache Misses:     ") misses
      ∷ int_line (codes "  Total Requests:   ") total
      ∷ percent_line (codes "  Hit Rate:         ") (rate_of hits total)
      ∷ percent_line (codes "  Miss Rate:        ") (rate_of misses total)
      ∷ []

  -- float(cache_stats[component].get(statistic, "0"))
  abbrev read_figure : Text → Text → CacheStats → Option fl.Float
  unfolding statistic_in
  read_figure component statistic stats =
      fl.parse (get_or (statistic_in component statistic stats) (codes "0"))

  unfoldable pub component_lines : Text → Text → CacheStats → List (Option Text)
  unfolding level_lines read_figure
  component_lines level component stats = elim (read_figure component (codes "CacheHits") stats) [
    | none ↦ none ∷ []
    | some hits ↦ elim (read_figure component (codes "CacheMisses") stats) [
      | none ↦ none ∷ []
      | some misses ↦ level_lines level hits misses
    ]
  ]

  -- The first row is skipped, and a file without rows is an exception.
  unfoldable pub parse_statistics : List (List Text) → Output
  unfolding print_lines component_lines put_rows
  parse_statistics [] = record { lines = []; complete = false }
  parse_statistics (header ∷ rows) =
      let stats = put_rows rows no_statistics in
      print_lines (
        some
            (codes "\n============================[ Cache Statistics ]============================")
          ∷ component_lines (codes "L1 Cache") (codes "global_l1cache") stats
        ++ (component_lines (codes "L2 Cache") (codes "global_l2cache") stats
            ++ (component_lines (codes "L3 Cache") (codes "global_l3cache") stats
                ++ (some (
                      codes
                        "\n===========================================================================\n")
                    ∷ []))))
