-- ===== src/Tools/Breakdown.antt =====
-- tools/parse_prop_breakdown.py: the label and the averages of a test over several seeds, and the rows of
-- the CSV file.
pub mod SameLabel
use sst_sat.Base.{
  ℕ, suc, ◌+◌, Bool, true, false, ◌&&◌, Option, some, none, List, [], ◌∷◌, ◌++◌, map, if◌then◌else◌,
}
use sst_sat.Base.Int.{pos}
use sst_sat.Base.Dict.{lookup, insert}
use sst_sat.Python.Text.{Text, Text_eq, codes, eq_text, starts_with, ends_with}
use sst_sat.Python.Sorted.{sorted, le_text}
use sst_sat.Log.Value.{Floats, Value, whole, real, text, Stats, ◌>>=◌}
use sst_sat.Log.Number.{Arithmetic, percent, above_zero}
use sst_sat.Results.Score.{time_key, label_of, solved_label, le_case}
use sst_sat.Results.Label.{counted_label}
use sst_sat.Results.Fields.{memory_key, formatted_key, pct_field}
use sst_sat.Results.Best.{put_formatted_bytes}
use sst_sat.Results.Aggregate.{put_averages}
use sst_sat.Results.Csv.{prop_keys, figure_or_zero, fill_row}

-- sum(1 for lbl in seed_labels if lbl not in ('SAT', 'UNSAT'))
abbrev pub unsolved : List Text → ℕ
unsolved [] = 0
unsolved (t ∷ ts) = (if solved_label t then 0 else 1) + unsolved ts

-- `finished_labels`
abbrev pub solved_labels : List Text → List Text
solved_labels [] = []
solved_labels (t ∷ ts) = let rest = solved_labels ts in if solved_label t then t ∷ rest else rest

abbrev pub all_are : Text → List Text → Bool
all_are s [] = true
all_are s (t ∷ ts) = eq_text t s && all_are s ts

-- `base_label`, or UNKNOWN where it is None
abbrev pub base_label : List Text → Text
base_label [] = codes "UNKNOWN"
base_label (t ∷ ts) =
    if all_are (codes "SAT") (t ∷ ts)
    then codes "SAT"
    else if all_are (codes "UNSAT") (t ∷ ts)
    then codes "UNSAT"
    else codes "ERROR"

-- f"{base_label} {unknown_count}" if unknown_count > 0 else base_label
unfoldable pub breakdown_label : List Text → Text
unfolding counted_label
breakdown_label labels = counted_label (base_label (solved_labels labels)) (unsolved labels)

unfoldable pub solved_entries : {F : Type 0} → List (Stats F) → List (Stats F)
solved_entries [] = []
solved_entries (e ∷ es) =
    let rest = solved_entries es in if solved_label (label_of e) then e ∷ rest else rest

abbrev pub numeric_fields : List Text
numeric_fields = codes "variables" ∷ codes "clauses" ∷ memory_key ∷ time_key ∷ []

abbrev pub breakdown_cycles : List Text
breakdown_cycles =
    codes "propagate_cycles"
    ∷ codes "analyze_cycles"
    ∷ codes "minimize_cycles"
    ∷ codes "backtrack_cycles"
    ∷ codes "decision_cycles"
    ∷ codes "reduce_db_cycles"
    ∷ codes "restart_cycles"
    ∷ []

abbrev keys_ending : Text → List Text → List Text
keys_ending suffix [] = []
keys_ending suffix (k ∷ ks) =
    let rest = keys_ending suffix ks in if ends_with suffix k then k ∷ rest else rest

-- The header: base fields, shares of activities, shares of cycles, and cycles of activities.
unfoldable pub breakdown_fields : {F : Type 0} → List (Stats F) → List Text
unfolding prop_keys sorted le_text
breakdown_fields results =
    let prop_fields = sorted le_text (prop_keys results []) in
    (codes "test_case"
      ∷ codes "result"
      ∷ codes "variables"
      ∷ codes "clauses"
      ∷ formatted_key
      ∷ time_key
      ∷ [])
    ++ (sorted le_text (keys_ending (codes "_pct") prop_fields)
        ++ (map pct_field breakdown_cycles
            ++ sorted le_text (keys_ending (codes "_cycles") prop_fields)))

module _ (fl : Floats) (ar : Arithmetic fl.Float) where
  -- The averages are over the seeds that are SAT or UNSAT. `put_formatted_bytes` does not use the limit.
  unfoldable pub aggregate_breakdown : Text → List (Stats fl.Float) → Option (Stats fl.Float)
  unfolding breakdown_label solved_entries put_averages put_formatted_bytes prop_keys sorted le_text
  aggregate_breakdown test entries =
      let finished = solved_entries entries in
      let agg : Stats fl.Float =
        (codes "test_case", text test)
        ∷ (codes "result", text (breakdown_label (map label_of entries)))
        ∷ [] in
      put_averages fl ar (fl.of_ℕ 0) numeric_fields finished agg
      >>= put_formatted_bytes fl ar (fl.of_ℕ 0)
      >>= put_averages fl ar (fl.of_ℕ 0) (breakdown_cycles ++ (codes "total_counted_cycles" ∷ []))
          finished
      >>= put_averages fl ar (fl.of_ℕ 0) (sorted le_text (prop_keys finished [])) finished

  -- row[pct_field] = cycles / total_cycles * 100.0
  unfoldable pub put_shares : Stats fl.Float → List Text → Stats fl.Float → Option (Stats fl.Float)
  unfolding percent insert
  put_shares r [] row = some row
  put_shares r (name ∷ names) row =
      percent fl ar (figure_or_zero fl ar name r)
        (figure_or_zero fl ar (codes "total_counted_cycles") r)
      >>= (λ x. put_shares r names (insert (pct_field name) (real x) row))

  unfoldable pub breakdown_row : List Text → Stats fl.Float → Option (Stats fl.Float)
  unfolding fill_row put_shares above_zero
  breakdown_row fields r =
      let row = fill_row fl ar (whole (pos 0)) r fields [] in
      above_zero fl ar (figure_or_zero fl ar (codes "total_counted_cycles") r)
      >>= (λ b. if b then put_shares r breakdown_cycles row else some row)

  unfoldable pub breakdown_rows : List Text → List (Stats fl.Float) → Option (List (Stats fl.Float))
  unfolding breakdown_row
  breakdown_rows fields [] = some []
  breakdown_rows fields (r ∷ rs) =
      breakdown_row fields r >>= (λ row. breakdown_rows fields rs >>= (λ rows. some (row ∷ rows)))

  unfoldable pub write_prop_breakdown_csv : List (Stats fl.Float) → Option (List (Stats fl.Float))
  unfolding breakdown_rows breakdown_fields sorted
  write_prop_breakdown_csv results =
      breakdown_rows (breakdown_fields results) (sorted le_case results)
