-- ===== src/Results/Aggregate.antt =====
-- The row of a test over several seeds, in tools/parse_results.py: its label, and the averages of its
-- figures.
use sst_sat.Base.{Bool, false, ◌||◌, Option, some, none, List, [], ◌∷◌, length, map, if◌then◌else◌}
use sst_sat.Base.Int.{pos}
use sst_sat.Base.Dict.{lookup, insert}
use sst_sat.Python.Text.{Text, Text_eq, codes, starts_with}
use sst_sat.Log.Value.{Floats, Value, whole, real, text, Stats, ◌>>=◌}
use sst_sat.Log.Number.{
  Arithmetic, Reading, float, refused, too_large, zero_float, to_float, sum_from,
}
use sst_sat.Results.Score.{
  time_key, label_of, excluded_label, solved_label, timeout_label, timeout_ms, sim_ms,
}
use sst_sat.Results.Label.{aggregate_label, has_no_figures}
use sst_sat.Results.Fields.{numeric_fields_excluding_time}
use sst_sat.Results.Best.{SeedMap, seed_contribution, put_formatted_bytes}

module _ (fl : Floats) (ar : Arithmetic fl.Float) (timeout_seconds : fl.Float) where
  -- [m[case] for m in seed_maps if case in m]
  abbrev with_entry : Option (Stats fl.Float) → List (Stats fl.Float) → List (Stats fl.Float)
  with_entry none entries = entries
  with_entry (some e) entries = e ∷ entries

  unfoldable pub seed_entries : Text → List (SeedMap fl ar timeout_seconds) → List (Stats fl.Float)
  unfolding lookup
  seed_entries test [] = []
  seed_entries test (m ∷ ms) = with_entry (lookup test m) (seed_entries test ms)

  -- `float(...) <= timeout_ms`, False if `float` raises a TypeError or a ValueError.
  in_limit : Reading fl.Float → Option Bool
  in_limit (float ms) = some (ar.at_most ms (timeout_ms fl ar timeout_seconds))
  in_limit refused = some false
  in_limit too_large = none

  unfoldable pub finished : List (Stats fl.Float) → Option (List (Stats fl.Float))
  unfolding in_limit sim_ms
  finished [] = some []
  finished (e ∷ entries) =
      let rest = finished entries in
      if solved_label (label_of e)
      then in_limit (sim_ms fl ar timeout_seconds e)
        >>= (λ b. rest >>= (λ es. some (if b then e ∷ es else es)))
      else rest

  -- The floats of a figure; a text that is no number is left out.
  keep_float : Reading fl.Float → List fl.Float → Option (List fl.Float)
  keep_float (float x) xs = some (x ∷ xs)
  keep_float refused xs = some xs
  keep_float too_large xs = none

  floats_with : Option (Value fl.Float) → List fl.Float → Option (List fl.Float)
  unfolding keep_float to_float
  floats_with none xs = some xs
  floats_with (some v) xs = keep_float (to_float fl ar v) xs

  unfoldable pub floats_of : Text → List (Stats fl.Float) → Option (List fl.Float)
  unfolding floats_with lookup
  floats_of key [] = some []
  floats_of key (e ∷ entries) = floats_of key entries >>= floats_with (lookup key e)

  -- _avg_of
  unfoldable pub avg_of : List fl.Float → Value fl.Float
  unfolding sum_from
  avg_of [] = whole (pos 0)
  avg_of (x ∷ xs) = real (ar.shared (sum_from fl ar (zero_float fl ar) (x ∷ xs)) (length (x ∷ xs)))

  -- agg[key] = _avg_of(vals) for each key
  unfoldable pub put_averages :
      List Text → List (Stats fl.Float) → Stats fl.Float → Option (Stats fl.Float)
  unfolding floats_of avg_of insert
  put_averages [] entries agg = some agg
  put_averages (key ∷ keys) entries agg =
      floats_of key entries >>= (λ xs. put_averages keys entries (insert key (avg_of xs) agg))

  -- `time_vals`: the times of the seeds that are not ERROR or UNKNOWN, 2 * timeout for unfinished ones.
  unfoldable pub time_vals : List (Stats fl.Float) → Option (List fl.Float)
  unfolding seed_contribution
  time_vals [] = some []
  time_vals (e ∷ entries) =
      let rest = time_vals entries in
      if excluded_label (label_of e)
      then rest
      else seed_contribution fl ar timeout_seconds e >>= (λ c. rest >>= (λ cs. some (c ∷ cs)))

  put_sim_time : Stats fl.Float → List fl.Float → Stats fl.Float
  unfolding insert avg_of
  put_sim_time agg times = insert time_key (avg_of times) agg

  identifiers : Text → Text → Stats fl.Float
  identifiers test label = (codes "test_case", text test) ∷ (codes "result", text label) ∷ []

  -- result_str == 'TIMEOUT' or result_str.startswith('TIMEOUT ')
  abbrev is_timeout_row : Text → Bool
  is_timeout_row label = timeout_label label || starts_with (codes "TIMEOUT ") label

  averaged_row : Text → Text → List (Stats fl.Float) → Option (Stats fl.Float)
  unfolding identifiers finished put_averages time_vals put_sim_time put_formatted_bytes
  averaged_row test label entries = finished entries >>= (λ done.
      put_averages numeric_fields_excluding_time (if is_timeout_row label then entries else done)
        (identifiers test label)
      >>= (λ agg.
          time_vals entries
          >>= (λ times. put_formatted_bytes fl ar timeout_seconds (put_sim_time agg times))))

  unfoldable pub aggregate : Text → List (Stats fl.Float) → Option (Stats fl.Float)
  unfolding aggregate_label has_no_figures identifiers averaged_row
  aggregate test entries =
      let label = aggregate_label (map label_of entries) in
      if has_no_figures label
      then some (identifiers test label)
      else averaged_row test label entries

  -- The rows of the tests, in order; a test without an entry has none.
  unfoldable pub aggregate_all :
      List (SeedMap fl ar timeout_seconds) → List Text → Option (List (Stats fl.Float))
  unfolding seed_entries aggregate
  aggregate_all ms [] = some []
  aggregate_all ms (test ∷ tests) =
      let rest = aggregate_all ms tests in
      elim (seed_entries test ms) [
        | [] ↦ rest
        | e ∷ entries ↦
            aggregate test (e ∷ entries) >>= (λ row. rest >>= (λ rows. some (row ∷ rows)))
      ]
