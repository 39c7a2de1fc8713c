-- ===== src/Tools/Satlib/Table.antt =====
-- tools/compare_satlib.py: the published results and the table of the datasets.
use sst_sat.Base.{
  ℕ, ◌+◌, Bool, true, false, ◌||◌, Option, some, none, List, [], ◌∷◌, length, if◌then◌else◌,
}
use sst_sat.Base.Int.{pos}
use sst_sat.Base.Dict.{Dict, lookup}
use sst_sat.Python.Text.{Text, Text_eq, codes, eq_text}
use sst_sat.Log.Value.{Floats, Value, whole, real, Stats, ◌>>=◌}
use sst_sat.Log.Number.{Arithmetic, figure, above_zero, sum_values, quotient, zero_float, text_in}
use sst_sat.Tools.Satlib.{Groups, tests_in}

-- The published results of a dataset: the average time and the timeouts.
pub record Published (F : Type 0) : Type 0 where
  pub avg_time_ms : F
  pub timeouts : ℕ

module _ (fl : Floats) (ar : Arithmetic fl.Float) where
  -- r.get('result') in ('TIMEOUT', 'UNKNOWN')
  abbrev is_timeout : Stats fl.Float → Bool
  unfolding lookup
  is_timeout r =
      let label = text_in (lookup (codes "result") r) in
      eq_text label (codes "TIMEOUT") || eq_text label (codes "UNKNOWN")

  unfoldable pub count_timeouts : List (Stats fl.Float) → ℕ
  unfolding is_timeout
  count_timeouts [] = 0
  count_timeouts (r ∷ rs) = (if is_timeout r then 1 else 0) + count_timeouts rs

  -- [r[key] for r in our_tests if r.get(key, 0) > 0]
  unfoldable pub positive_figures : Text → List (Stats fl.Float) → Option (List (Value fl.Float))
  unfolding above_zero lookup
  positive_figures key [] = some []
  positive_figures key (r ∷ rs) =
      let v = figure fl ar key (whole (pos 0)) r in
      above_zero fl ar v
      >>= (λ b. positive_figures key rs >>= (λ vs. some (if b then v ∷ vs else vs)))

  -- sum(times) / len(times) if times else 0.0
  unfoldable pub average_of : List (Value fl.Float) → Option (Value fl.Float)
  unfolding sum_values quotient
  average_of [] = some (real (zero_float fl ar))
  average_of (v ∷ vs) =
      sum_values fl ar (whole (pos 0)) (v ∷ vs)
      >>= (λ t. quotient fl ar t (whole (pos (length (v ∷ vs)))))
      >>= (λ x. some (real x))

  -- A speedup is infinite where our average is 0.
  pub record DatasetRow : Type 0 where
    pub instances : ℕ
    pub timeouts : ℕ
    pub avg_time : Value fl.Float
    pub speedup_150 : Option fl.Float
    pub speedup_scaled : Option fl.Float

  -- verisat / avg_time if avg_time > 0 else float('inf')
  unfoldable pub speedup : fl.Float → Value fl.Float → Option (Option fl.Float)
  unfolding above_zero quotient
  speedup verisat avg_time = above_zero fl ar avg_time >>= (λ b. elim b [
    | true ↦ quotient fl ar (real verisat) avg_time >>= (λ x. some (some x))
    | false ↦ some none
  ])

  -- verisat_150 * VERISAT_SCALE, where VERISAT_SCALE is 1.0 / 8.0
  abbrev scaled_time : fl.Float → fl.Float
  scaled_time x = fl.times x (ar.divided (fl.of_ℕ 1) (fl.of_ℕ 8))

  unfoldable pub dataset_row : Published fl.Float → List (Stats fl.Float) → Option DatasetRow
  unfolding count_timeouts positive_figures average_of speedup
  dataset_row verisat our_tests = positive_figures (codes "sim_time_ms") our_tests >>= (λ times.
      average_of times >>= (λ avg_time. speedup verisat.avg_time_ms avg_time >>= (λ speedup_150.
        speedup (scaled_time verisat.avg_time_ms) avg_time >>= (λ speedup_scaled. some (record {
          instances = length our_tests;
          timeouts = count_timeouts our_tests;
          avg_time = avg_time;
          speedup_150 = speedup_150;
          speedup_scaled = speedup_scaled;
        })))))

-- The datasets in the order of the table.
abbrev pub dataset_order : List Text
dataset_order =
    codes "UF20"
    ∷ codes "UF50"
    ∷ codes "UF75"
    ∷ codes "UF100"
    ∷ codes "UF125"
    ∷ codes "UF150"
    ∷ codes "UUF50"
    ∷ codes "UUF75"
    ∷ codes "UUF100"
    ∷ codes "UUF125"
    ∷ codes "UUF150"
    ∷ codes "QG"
    ∷ codes "BMC"
    ∷ codes "HOLE"
    ∷ codes "II"
    ∷ codes "LOGISTICS"
    ∷ []

module _ (fl : Floats) (ar : Arithmetic fl.Float) where
  abbrev row_of :
      Option (Published fl.Float) → List (Stats fl.Float) → Option (Option (DatasetRow fl ar))
  unfolding dataset_row
  row_of none our_tests = some none
  row_of (some verisat) our_tests = dataset_row fl ar verisat our_tests >>= (λ row. some (some row))

  abbrev add_row :
      Text
      → Option (DatasetRow fl ar)
      → List (Text × DatasetRow fl ar)
      → List (Text × DatasetRow fl ar)
  add_row ds none rows = rows
  add_row ds (some row) rows = (ds, row) ∷ rows

  -- avg_time_ms is written with two decimals, so it is given in hundredths.
  abbrev published : ℕ → ℕ → Published fl.Float
  published hundredths timeouts = record {
    avg_time_ms = ar.divided (fl.of_ℕ hundredths) (fl.of_ℕ 100);
    timeouts = timeouts;
  }

  -- VERISAT_DATA
  abbrev verisat_data : Dict Text (Published fl.Float)
  verisat_data =
      (codes "UF20", published 2 0)
      ∷ (codes "UF50", published 26 0)
      ∷ (codes "UF75", published 199 0)
      ∷ (codes "UF100", published 1141 0)
      ∷ (codes "UF125", published 11062 0)
      ∷ (codes "UF150", published 71362 18)
      ∷ (codes "UUF50", published 61 0)
      ∷ (codes "UUF75", published 423 0)
      ∷ (codes "UUF100", published 3407 0)
      ∷ (codes "UUF125", published 26035 0)
      ∷ (codes "UUF150", published 95693 0)
      ∷ (codes "QG", published 18129 1)
      ∷ (codes "BMC", published 1807 0)
      ∷ (codes "HOLE", published 6983 0)
      ∷ (codes "II", published 1063 0)
      ∷ (codes "LOGISTICS", published 1605 0)
      ∷ []

  -- The rows of the table, of the datasets with published results.
  unfoldable pub table : Groups fl.Float → List Text → Option (List (Text × DatasetRow fl ar))
  unfolding row_of lookup tests_in
  table g [] = some []
  table g (ds ∷ order) =
      row_of (lookup ds verisat_data) (tests_in ds g)
      >>= (λ row. table g order >>= (λ rows. some (add_row ds row rows)))
