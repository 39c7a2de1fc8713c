-- ===== src/Results/Score.antt =====
-- The PAR-2 score of a list of results, in tools/parse_results.py: of a seed folder, and of a folder
-- without seeds, where runs over the time limit are first counted as timeouts.
use sst_sat.Base.{
  ℕ, ◌+◌, ◌-◌, Bool, true, false, ◌&&◌, ◌||◌, Option, some, none, List, [], ◌∷◌, ◌++◌, length, ltb,
  if◌then◌else◌,
}
use sst_sat.Base.Dict.{lookup}
use sst_sat.Python.Text.{Text, Text_eq, codes, eq_text}
use sst_sat.Python.Sorted.{le_text}
use sst_sat.Log.Value.{Floats, real, Stats, ◌>>=◌}
use sst_sat.Log.Number.{
  Arithmetic, Reading, float, refused, too_large, to_float, or_default, zero_float, figure, text_in,
}

abbrev pub time_key : Text
time_key = codes "sim_time_ms"

-- r.get('result') and r.get('test_case')
abbrev pub label_of : {F : Type 0} → Stats F → Text
label_of r = text_in (lookup (codes "result") r)

abbrev pub case_of : {F : Type 0} → Stats F → Text
case_of r = text_in (lookup (codes "test_case") r)

-- in ('ERROR', 'UNKNOWN'), in ('SAT', 'UNSAT') and == 'TIMEOUT'
abbrev pub excluded_label : Text → Bool
excluded_label t = eq_text t (codes "ERROR") || eq_text t (codes "UNKNOWN")

abbrev pub solved_label : Text → Bool
solved_label t = eq_text t (codes "SAT") || eq_text t (codes "UNSAT")

abbrev pub timeout_label : Text → Bool
timeout_label t = eq_text t (codes "TIMEOUT")

abbrev pub le_case : {F : Type 0} → Stats F → Stats F → Bool
le_case r s = le_text (case_of r) (case_of s)

-- `par2_total`, `solved` and `excluded`
pub record Score (F : Type 0) : Type 0 where
  pub total : F
  pub solved : ℕ
  pub excluded : List Text

-- What _compute_par2_and_solved returns.
pub record Par2 (F : Type 0) : Type 0 where
  pub par2_seconds : F
  pub solved_count : ℕ
  pub excluded_tests : List Text

module _ (fl : Floats) (ar : Arithmetic fl.Float) (timeout_seconds : fl.Float) where
  -- timeout_seconds * 1000.0, and 2 * timeout_ms
  abbrev pub timeout_ms : fl.Float
  timeout_ms = fl.times timeout_seconds (fl.of_ℕ 1000)

  abbrev pub penalty : fl.Float
  penalty = fl.times (fl.of_ℕ 2) timeout_ms

  -- float(r.get('sim_time_ms', 0.0) or 0.0)
  unfoldable pub sim_ms : Stats fl.Float → Reading fl.Float
  unfolding to_float or_default lookup
  sim_ms r =
      let zero_ms = real (zero_float fl ar) in
      to_float fl ar (or_default fl ar (figure fl ar time_key zero_ms r) zero_ms)

  -- What a run with this label and this time adds, and if it counts as solved.
  abbrev pub in_time : Text → fl.Float → fl.Float × Bool
  in_time label ms =
      if solved_label label && ar.at_most ms timeout_ms then (ms, true) else (penalty, false)

  unfoldable pub contribution_at : Text → Reading fl.Float → Option (fl.Float × Bool)
  contribution_at label (float ms) = some (in_time label ms)
  contribution_at label refused = none
  contribution_at label too_large = none

  -- `none` is an exception of `float`.
  unfoldable pub contribution : Stats fl.Float → Option (fl.Float × Bool)
  unfolding contribution_at
  contribution r =
      if timeout_label (label_of r)
      then some (penalty, false)
      else contribution_at (label_of r) (sim_ms r)

  abbrev pub one_if : Bool → ℕ
  one_if b = if b then 1 else 0

  abbrev pub score_run : fl.Float × Bool → Score fl.Float → Score fl.Float
  score_run c s = record s { total = ar.plus s.total c.0; solved = s.solved + one_if c.1 }

  abbrev pub exclude : Stats fl.Float → Score fl.Float → Score fl.Float
  exclude r s = record s { excluded = s.excluded ++ (case_of r ∷ []) }

  unfoldable pub score_all : List (Stats fl.Float) → Score fl.Float → Option (Score fl.Float)
  unfolding contribution
  score_all [] s = some s
  score_all (r ∷ rs) s =
      if excluded_label (label_of r)
      then score_all rs (exclude r s)
      else contribution r >>= (λ c. score_all rs (score_run c s))

  abbrev pub no_score : Score fl.Float
  no_score = record { total = zero_float fl ar; solved = 0; excluded = [] }

  -- (par2_total / n) / 1000.0 if n > 0 else 0.0
  abbrev pub par2_of : fl.Float → ℕ → fl.Float
  par2_of total n = if ltb 0 n then ar.shared (ar.shared total n) 1000 else zero_float fl ar

  -- The score of `n` results.
  abbrev pub par2_from : ℕ → Score fl.Float → Option (Par2 fl.Float)
  par2_from n s = some (record {
    par2_seconds = par2_of s.total (n - length s.excluded);
    solved_count = s.solved;
    excluded_tests = s.excluded;
  })

  unfoldable pub compute_par2_and_solved : List (Stats fl.Float) → Option (Par2 fl.Float)
  unfolding score_all
  compute_par2_and_solved [] =
      some (record { par2_seconds = zero_float fl ar; solved_count = 0; excluded_tests = [] })
  compute_par2_and_solved (r ∷ rs) = score_all (r ∷ rs) no_score >>= par2_from (length (r ∷ rs))
