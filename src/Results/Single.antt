-- ===== src/Results/Single.antt =====
-- The folder without seeds in tools/parse_results.py: runs over the time limit become timeouts, the
-- results are sorted, and the score is computed on what is left.
pub mod Equivalence
pub mod Marks
pub mod Order
use sst_sat.Base.{
  ℕ, suc, ◌+◌, Bool, true, false, ◌&&◌, not, Option, some, none, List, [], ◌∷◌, length,
  if◌then◌else◌,
}
use sst_sat.Base.Dict.{lookup, insert, has_key}
use sst_sat.Python.Text.{Text, Text_eq, codes}
use sst_sat.Python.Sorted.{sorted}
use sst_sat.Log.Value.{Floats, real, text, Stats, ◌>>=◌}
use sst_sat.Log.Number.{Arithmetic, Reading, float, refused, too_large, zero_float}
use sst_sat.Results.Score.{
  time_key, label_of, excluded_label, solved_label, timeout_label, le_case, Score, timeout_ms,
  penalty, sim_ms, contribution, score_run, no_score, par2_of,
}

module _ (fl : Floats) (ar : Arithmetic fl.Float) (timeout_seconds : fl.Float) where
  -- `except (TypeError, ValueError): sim_ms = 0.0`
  abbrev pub time_or_zero : Reading fl.Float → Option fl.Float
  time_or_zero (float ms) = some ms
  time_or_zero refused = some (zero_float fl ar)
  time_or_zero too_large = none

  -- r['result'] = 'TIMEOUT'
  unfoldable pub mark_timeout : fl.Float → Stats fl.Float → Stats fl.Float
  unfolding insert
  mark_timeout ms r =
      if solved_label (label_of r) && ar.less (timeout_ms fl ar timeout_seconds) ms
      then insert (codes "result") (text (codes "TIMEOUT")) r
      else r

  -- r['sim_time_ms'] = par2_penalty_ms
  unfoldable pub put_penalty : Stats fl.Float → Stats fl.Float
  unfolding insert
  put_penalty r =
      if timeout_label (label_of r)
      then insert time_key (real (penalty fl ar timeout_seconds)) r
      else r

  unfoldable pub reclassify : Stats fl.Float → Option (Stats fl.Float)
  unfolding mark_timeout put_penalty sim_ms
  reclassify r =
      time_or_zero (sim_ms fl ar timeout_seconds r)
      >>= (λ ms. some (put_penalty (mark_timeout ms r)))

  unfoldable pub reclassify_all : List (Stats fl.Float) → Option (List (Stats fl.Float))
  unfolding reclassify
  reclassify_all [] = some []
  reclassify_all (r ∷ rs) = reclassify r >>= (λ r1. reclassify_all rs >>= (λ rs1. some (r1 ∷ rs1)))

  -- r['test_case'] is a KeyError for a result without a name.
  abbrev pub all_named : List (Stats fl.Float) → Bool
  unfolding has_key
  all_named [] = true
  all_named (r ∷ rs) = has_key (codes "test_case") r && all_named rs

  -- `valid_results`
  unfoldable pub valid_results : List (Stats fl.Float) → List (Stats fl.Float)
  valid_results [] = []
  valid_results (r ∷ rs) =
      let rest = valid_results rs in if excluded_label (label_of r) then rest else r ∷ rest

  -- The loop over the valid results; r['result'] is a KeyError for a result without a label.
  unfoldable pub score_valid : List (Stats fl.Float) → Score fl.Float → Option (Score fl.Float)
  unfolding contribution has_key
  score_valid [] s = some s
  score_valid (r ∷ rs) s =
      if has_key (codes "result") r
      then contribution fl ar timeout_seconds r
        >>= (λ c. score_valid rs (score_run fl ar timeout_seconds c s))
      else none

  -- The PAR-2 score in seconds, and `solved_within_timeout`.
  abbrev pub score_of : ℕ → Score fl.Float → Option (fl.Float × ℕ)
  score_of n s = some (par2_of fl ar timeout_seconds s.total n, s.solved)

  unfoldable pub score_named : List (Stats fl.Float) → Option (fl.Float × ℕ)
  unfolding sorted valid_results score_valid
  score_named rs =
      let valid = valid_results (sorted le_case rs) in
      if all_named rs
      then score_valid valid (no_score fl ar timeout_seconds) >>= score_of (length valid)
      else none

  unfoldable pub single_run_score : List (Stats fl.Float) → Option (fl.Float × ℕ)
  unfolding reclassify_all score_named
  single_run_score results = reclassify_all results >>= score_named
