-- ===== src/Results/Best.antt =====
-- The best of several seeds for a test, in tools/parse_results.py: for the PAR-2 score, and for the rows
-- that --dump-best writes.
pub mod Least
pub mod Row
pub mod SameBest
use sst_sat.Base.{
  ℕ, suc, ◌+◌, Bool, true, false, ◌&&◌, ◌||◌, Option, some, none, List, [], ◌∷◌, ◌++◌, length, ltb,
  if◌then◌else◌, map,
}
use sst_sat.Base.Int.{ℤ, pos}
use sst_sat.Base.Dict.{Dict, lookup, insert}
use sst_sat.Python.Text.{Text, Text_eq, codes, eq_text}
use sst_sat.Python.Sorted.{sorted, le_text}
use sst_sat.Log.Value.{Floats, Value, whole, real, text, Stats, ◌>>=◌}
use sst_sat.Log.Number.{Arithmetic, Reading, zero_float, figure, or_default, to_int}
use sst_sat.Log.Format.{format_bytes}
use sst_sat.Results.Score.{
  time_key, label_of, case_of, excluded_label, timeout_label, timeout_ms, penalty, sim_ms, in_time,
  par2_of,
}
use sst_sat.Results.Single.{time_or_zero}

module _ (fl : Floats) (ar : Arithmetic fl.Float) (timeout_seconds : fl.Float) where
  -- {r.get('test_case', ''): r for r in res}
  abbrev pub SeedMap : Type 0
  SeedMap = Dict Text (Stats fl.Float)

  unfoldable pub seed_map : List (Stats fl.Float) → SeedMap → SeedMap
  unfolding insert
  seed_map [] m = m
  seed_map (r ∷ rs) m = seed_map rs (insert (case_of r) r m)

  -- The time of a run within the limit, or the penalty; `none` is an OverflowError of `float`.
  unfoldable pub seed_time : Stats fl.Float → Option fl.Float
  unfolding sim_ms
  seed_time r =
      time_or_zero fl ar timeout_seconds (sim_ms fl ar timeout_seconds r)
      >>= (λ ms. some (in_time fl ar timeout_seconds (label_of r) ms).0)

  -- A timeout gets the penalty without a look at its time.
  unfoldable pub seed_contribution : Stats fl.Float → Option fl.Float
  unfolding seed_time
  seed_contribution r =
      if timeout_label (label_of r) then some (penalty fl ar timeout_seconds) else seed_time r

  abbrev pub better : fl.Float → fl.Float → fl.Float
  better c best = if ar.less c best then c else best

  -- The loop over the seeds of a test: `best_contrib`.
  unfoldable pub best_contribution : Text → List SeedMap → fl.Float → Option fl.Float
  unfolding seed_contribution lookup
  best_contribution test [] best = some best
  best_contribution test (m ∷ ms) best = elim (lookup test m) [
    | none ↦ best_contribution test ms best
    | some entry ↦
        let rest = best_contribution test ms in
        if excluded_label (label_of entry)
        then rest best
        else seed_contribution entry >>= (λ c. rest (better c best))
  ]

  -- `all(case in per_seed_excluded[i] ... if case in seed_maps[i])`
  abbrev has_text_in : Text → List Text → Bool
  has_text_in t [] = false
  has_text_in t (u ∷ us) = eq_text u t || has_text_in t us

  excluded_where : Option (Stats fl.Float) → Bool → Bool
  excluded_where none b = true
  excluded_where (some entry) b = b

  unfoldable pub all_excluded : Text → List (SeedMap × List Text) → Bool
  unfolding excluded_where lookup
  all_excluded test [] = true
  all_excluded test ((m, excluded) ∷ seeds) =
      excluded_where (lookup test m) (has_text_in test excluded) && all_excluded test seeds

  -- `best_total_ms`, `solved_best_total` and `valid_test_count`
  pub record Best : Type 0 where
    pub total_ms : fl.Float
    pub solved : ℕ
    pub valid : ℕ

  abbrev add_best : fl.Float → Best → Best
  add_best c b = record {
    total_ms = ar.plus b.total_ms c;
    solved = (if ar.less c (penalty fl ar timeout_seconds) then 1 else 0) + b.solved;
    valid = 1 + b.valid;
  }

  abbrev maps_of : List (SeedMap × List Text) → List SeedMap
  maps_of [] = []
  maps_of ((m, excluded) ∷ seeds) = m ∷ maps_of seeds

  -- The loop over the tests, in the order in which the set gives them.
  unfoldable pub best_of_seeds : List (SeedMap × List Text) → List Text → Best → Option Best
  unfolding all_excluded best_contribution
  best_of_seeds seeds [] b = some b
  best_of_seeds seeds (test ∷ tests) b =
      if all_excluded test seeds
      then best_of_seeds seeds tests b
      else best_contribution test (maps_of seeds) (penalty fl ar timeout_seconds)
        >>= (λ c. best_of_seeds seeds tests (add_best c b))

  abbrev no_best : Best
  no_best = record { total_ms = zero_float fl ar; solved = 0; valid = 0 }

  -- `best_par2_seconds` and `best_solved_count`: None where no test is valid.
  unfoldable pub best_score :
      List (SeedMap × List Text) → List Text → Option (Option (fl.Float × ℕ))
  unfolding best_of_seeds
  best_score seeds tests = best_of_seeds seeds tests no_best >>= (λ b.
      if ltb 0 b.valid
      then some (some (par2_of fl ar timeout_seconds b.total_ms b.valid, b.solved))
      else some none)

  -- The same loop for a row: `best_contrib` and `best_entry`. It reads the time of every entry.
  unfoldable pub best_entry :
      Text
      → List SeedMap
      → fl.Float × Option (Stats fl.Float)
      → Option (fl.Float × Option (Stats fl.Float))
  unfolding seed_time lookup
  best_entry test [] best = some best
  best_entry test (m ∷ ms) best = elim (lookup test m) [
    | none ↦ best_entry test ms best
    | some entry ↦
        let rest = best_entry test ms in
        seed_time entry >>= (λ c. if ar.less c best.0 then rest (c, some entry) else rest best)
  ]

  -- The row for a test no seed of which is solved in time.
  abbrev pub placeholder : Text → Stats fl.Float
  placeholder test =
      (codes "test_case", text test)
      ∷ (codes "result", text (codes "UNKNOWN"))
      ∷ (time_key, real (penalty fl ar timeout_seconds))
      ∷ (codes "total_memory_bytes", whole (pos 0))
      ∷ []

  abbrev pub entry_or : Text → Option (Stats fl.Float) → Stats fl.Float
  entry_or test none = placeholder test
  entry_or test (some entry) = entry

  unfoldable pub mark_row : fl.Float → Stats fl.Float → Option (Stats fl.Float)
  unfolding insert sim_ms
  mark_row c row =
      if ar.at_most (penalty fl ar timeout_seconds) c
      then some (
          insert time_key (real (penalty fl ar timeout_seconds))
            (insert (codes "result") (text (codes "UNKNOWN")) row))
      else time_or_zero fl ar timeout_seconds (sim_ms fl ar timeout_seconds row)
        >>= (λ ms. some (insert time_key (real ms) row))

  -- row['total_memory_formatted'] = format_bytes(int(row.get('total_memory_bytes', 0) or 0))
  unfoldable pub put_formatted_bytes : Stats fl.Float → Option (Stats fl.Float)
  unfolding or_default to_int lookup insert format_bytes
  put_formatted_bytes row =
      let zero_bytes = whole (pos 0) in
      to_int fl ar
        (or_default fl ar (figure fl ar (codes "total_memory_bytes") zero_bytes row) zero_bytes)
      >>= (λ n.
          format_bytes fl n >>= (λ t. some (insert (codes "total_memory_formatted") (text t) row)))

  unfoldable pub best_row : List SeedMap → Text → Option (Stats fl.Float)
  unfolding best_entry mark_row put_formatted_bytes
  best_row ms test =
      best_entry test ms (penalty fl ar timeout_seconds, none)
      >>= (λ best. mark_row best.0 (entry_or test best.1) >>= put_formatted_bytes)

  unfoldable pub best_rows : List SeedMap → List Text → Option (List (Stats fl.Float))
  unfolding best_row
  best_rows ms [] = some []
  best_rows ms (test ∷ tests) =
      best_row ms test >>= (λ row. best_rows ms tests >>= (λ rows. some (row ∷ rows)))

  -- for case in sorted(all_cases)
  unfoldable pub best_results : List SeedMap → List Text → Option (List (Stats fl.Float))
  unfolding best_rows sorted le_text
  best_results ms tests = best_rows ms (sorted le_text tests)
