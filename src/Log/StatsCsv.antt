-- ===== src/Log/StatsCsv.antt =====
-- `parse_stats_csv_for_prefetch` of tools/unified_parser.py. The rows are what `csv.DictReader` makes
-- of the file.
use sst_sat.Base.{Option, some, none, List, [], ◌∷◌, if◌then◌else◌}
use sst_sat.Base.Int.{ℤ, pos}
use sst_sat.Base.Dict.{Dict, lookup, insert}
use sst_sat.Python.Text.{Text, Text_eq, codes, eq_text, starts_with}
use sst_sat.Python.Number.{int}
use sst_sat.Log.Value.{Floats, whole}
use sst_sat.Log.Sections.{Figures}

-- A column that a short row lacks has the value None.
abbrev pub Row : Type 0
Row = Dict Text (Option Text)

pub record Prefetch : Type 0 where
  pub last_requests : Option ℤ
  pub last_drops : Option ℤ

abbrev pub no_prefetch : Prefetch
no_prefetch = record { last_requests = none; last_drops = none }

-- row.get(name, '')
unfoldable pub column : Text → Row → Option Text
unfolding lookup
column name row = elim (lookup name row) [ none ↦ some [] | some v ↦ v ]

-- `int(row.get('Sum.u64') or 0)`, and the value before where that is a ValueError
unfoldable pub sum_of : Row → Option ℤ → Option ℤ
unfolding column
sum_of row last = elim (column (codes "Sum.u64") row) [
  | none ↦ some (pos 0)
  | some t ↦ elim t [
    | [] ↦ some (pos 0)
    | ◌∷◌ c u ↦ elim (int (c ∷ u)) [ none ↦ last | some n ↦ some n ]
  ]
]

-- The statistic of a row, which may be None.
unfoldable pub read_statistic : Option Text → Row → Prefetch → Prefetch
unfolding sum_of
read_statistic none row p = p
read_statistic (some name) row p =
    if eq_text name (codes "Prefetch_requests")
    then record p { last_requests = sum_of row p.last_requests }
    else if eq_text name (codes "Prefetch_drops")
    then record p { last_drops = sum_of row p.last_drops }
    else p

-- A missing result is the AttributeError of a row without a component.
unfoldable pub read_row : Row → Prefetch → Option Prefetch
unfolding read_statistic column
read_row row p = elim (column (codes "ComponentName") row) [
  | none ↦ none
  | some comp ↦ some (
      if starts_with (codes "global_l1cache") comp
      then read_statistic (column (codes "StatisticName") row) row p
      else p)
]

unfoldable pub read_rows : List Row → Prefetch → Option Prefetch
unfolding read_row
read_rows [] p = some p
read_rows (row ∷ rows) p = elim (read_row row p) [ none ↦ none | some q ↦ read_rows rows q ]

abbrev pub put_some : (fl : Floats) → Text → Option ℤ → Figures fl → Figures fl
put_some fl key none d = d
put_some fl key (some n) d = insert key (whole n) d

-- `none` stands for a file that is missing or cannot be read.
unfoldable pub parse_stats_csv_for_prefetch : (fl : Floats) → Option (List Row) → Figures fl
unfolding read_rows
parse_stats_csv_for_prefetch fl none = []
parse_stats_csv_for_prefetch fl (some rows) = elim (read_rows rows no_prefetch) [
  | none ↦ []
  | some p ↦
      put_some fl (codes "l1_prefetch_drops") p.last_drops
        (put_some fl (codes "l1_prefetch_requests") p.last_requests [])
]
