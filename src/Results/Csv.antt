-- ===== src/Results/Csv.antt =====
-- `write_csv_report` of tools/parse_results.py: the rows that it writes.
pub mod Keys
use sst_sat.Base.{
  ℕ, suc, Bool, true, false, ◌&&◌, ◌||◌, not, Option, some, none, List, [], ◌∷◌, ◌++◌, leb,
  if◌then◌else◌,
}
use sst_sat.Base.Int.{ℤ, pos, negsuc}
use sst_sat.Base.Dict.{Dict, lookup, insert}
use sst_sat.Python.Text.{Text, Text_eq, codes, eq_text, starts_with, has_char, split_on}
use sst_sat.Python.Number.{int}
use sst_sat.Python.Sorted.{sorted, le_text}
use sst_sat.Log.Value.{
  Floats, Value, whole, real, text, bins, Stats, BinKey, BinKey_eq, at, range, Bin, ◌>>=◌,
}
use sst_sat.Log.Number.{Arithmetic, zero_float, figure, or_default, percent}
use sst_sat.Results.Score.{label_of, le_case}
use sst_sat.Results.Label.{has_no_figures}
use sst_sat.Results.Fields.{fixed_fields, cycle_names, pct_field, drop_pct_key}

-- {k for r in results for k in r.keys() if k.startswith('prop_')}
abbrev pub has_name : Text → List Text → Bool
has_name k [] = false
has_name k (j ∷ js) = eq_text j k || has_name k js

abbrev pub add_name : Text → List Text → List Text
add_name k names = if has_name k names then names else names ++ (k ∷ [])

unfoldable pub add_prop_keys : {F : Type 0} → Stats F → List Text → List Text
add_prop_keys [] names = names
add_prop_keys ((k, v) ∷ r) names =
    add_prop_keys r (if starts_with (codes "prop_") k then add_name k names else names)

unfoldable pub prop_keys : {F : Type 0} → List (Stats F) → List Text → List Text
unfolding add_prop_keys
prop_keys [] names = names
prop_keys (r ∷ rs) names = prop_keys rs (add_prop_keys r names)

unfoldable pub fieldnames : {F : Type 0} → List (Stats F) → List Text
unfolding prop_keys sorted le_text
fieldnames results = fixed_fields ++ sorted le_text (prop_keys results [])

-- result.get('watcher_blocks_visited_bins', {}) or {}
abbrev pub bins_in : {F : Type 0} → Option (Value F) → List (BinKey × Bin F)
bins_in (some (bins bs)) = bs
bins_in v = []

module _ (fl : Floats) (ar : Arithmetic fl.Float) where
  abbrev zero_value : Value fl.Float
  zero_value = whole (pos 0)

  -- result.get(key, 0) or 0
  abbrev pub figure_or_zero : Text → Stats fl.Float → Value fl.Float
  unfolding or_default lookup
  figure_or_zero key r = or_default fl ar (figure fl ar key zero_value r) zero_value

  -- {field: result.get(field, default) for field in fieldnames}
  unfoldable pub fill_row :
      Value fl.Float → Stats fl.Float → List Text → Stats fl.Float → Stats fl.Float
  unfolding insert lookup
  fill_row default r [] row = row
  fill_row default r (field ∷ fields) row =
      fill_row default r fields (insert field (figure fl ar field default r) row)

  unfoldable pub default_of : Stats fl.Float → Value fl.Float
  unfolding has_no_figures
  default_of r = if has_no_figures (label_of r) then text [] else zero_value

  unfoldable pub put_cycle_pcts :
      Stats fl.Float → List Text → Stats fl.Float → Option (Stats fl.Float)
  unfolding percent insert figure_or_zero
  put_cycle_pcts r [] row = some row
  put_cycle_pcts r (name ∷ names) row =
      percent fl ar (figure_or_zero name r) (figure_or_zero (codes "total_counted_cycles") r)
      >>= (λ x. put_cycle_pcts r names (insert (pct_field name) (real x) row))

  unfoldable pub put_drop_pct : Stats fl.Float → Stats fl.Float → Option (Stats fl.Float)
  unfolding percent insert figure_or_zero
  put_drop_pct r row =
      percent fl ar (figure_or_zero (codes "l1_prefetch_drops") r)
        (figure_or_zero (codes "l1_prefetch_requests") r)
      >>= (λ x. some (insert drop_pct_key (real x) row))

  percentage_of : Option (Bin fl.Float) → fl.Float
  percentage_of none = zero_float fl ar
  percentage_of (some b) = b.percentage

  -- pct_for(key)
  unfoldable pub pct_for : ℕ → List (BinKey × Bin fl.Float) → fl.Float
  unfolding percentage_of lookup
  pct_for n bs = percentage_of (lookup (at (pos n)) bs)

  abbrev four_or_more : ℤ → Bool
  four_or_more (pos n) = leb 4 n
  four_or_more (negsuc n) = false

  -- If a bin counts as one of more than three blocks; int(k.split('-')[0]) may raise a ValueError.
  unfoldable pub beyond_three : BinKey → Option Bool
  unfolding int split_on
  beyond_three (at n) = some (four_or_more n)
  beyond_three (range k) =
      if eq_text k (codes "out_of_bounds")
      then some true
      else if has_char b'-' k
      then int (split_on b'-' k).0 >>= (λ n. some (four_or_more n))
      else some false

  unfoldable pub gt3_pct : fl.Float → List (BinKey × Bin fl.Float) → Option fl.Float
  unfolding beyond_three
  gt3_pct total [] = some total
  gt3_pct total ((k, b) ∷ bs) =
      beyond_three k >>= (λ c. gt3_pct (if c then ar.plus total b.percentage else total) bs)

  unfoldable pub put_blocks :
      List (BinKey × Bin fl.Float) → Stats fl.Float → Option (Stats fl.Float)
  unfolding pct_for gt3_pct insert
  put_blocks bs row =
      let put : ℕ → Text → Stats fl.Float → Stats fl.Float =
        λ n key row. insert key (real (pct_for n bs)) row in
      gt3_pct (zero_float fl ar) bs >>= (λ x. some (
        insert (codes "watcher_blocks_visited_gt3_pct") (real x) (
          put 3 (codes "watcher_blocks_visited_3_pct") (
            put 2 (codes "watcher_blocks_visited_2_pct")
              (put 1 (codes "watcher_blocks_visited_1_pct") row)))))

  unfoldable pub csv_row : List Text → Stats fl.Float → Option (Stats fl.Float)
  unfolding fill_row default_of put_cycle_pcts put_drop_pct put_blocks lookup
  csv_row fields r =
      put_cycle_pcts r cycle_names (fill_row (default_of r) r fields [])
      >>= put_drop_pct r
      >>= put_blocks (bins_in (lookup (codes "watcher_blocks_visited_bins") r))

  unfoldable pub csv_rows : List Text → List (Stats fl.Float) → Option (List (Stats fl.Float))
  unfolding csv_row
  csv_rows fields [] = some []
  csv_rows fields (r ∷ rs) =
      csv_row fields r >>= (λ row. csv_rows fields rs >>= (λ rows. some (row ∷ rows)))

  -- The last row, with the score; `solved` is f"{solved_count}/{total_problems}".
  abbrev initial : Text → Value fl.Float
  initial field =
      if eq_text field (codes "test_case") || eq_text field (codes "result")
      then text []
      else zero_value

  unfoldable pub fill_initial : List Text → Stats fl.Float → Stats fl.Float
  unfolding insert
  fill_initial [] row = row
  fill_initial (field ∷ fields) row = fill_initial fields (insert field (initial field) row)

  unfoldable pub summary_row : List Text → Text → fl.Float → Stats fl.Float
  unfolding fill_initial insert
  summary_row fields solved par2 = insert (codes "clauses") (text (ar.fixed 2 par2 ++ codes " s")) (
      insert (codes "variables") (text (codes "PAR-2")) (
        insert (codes "result") (text solved)
          (insert (codes "test_case") (text (codes "SOLVED")) (fill_initial fields []))))

  -- The rows below the header of `fieldnames`; the exceptions are those of the figures.
  unfoldable pub write_csv_report :
      List (Stats fl.Float) → Option (Text × fl.Float) → Option (List (Stats fl.Float))
  unfolding csv_rows fieldnames sorted summary_row
  write_csv_report results none = csv_rows (fieldnames results) (sorted le_case results)
  write_csv_report results (some (solved, par2)) =
      csv_rows (fieldnames results) (sorted le_case results)
      >>= (λ rows. some (rows ++ (summary_row (fieldnames results) solved par2 ∷ [])))
