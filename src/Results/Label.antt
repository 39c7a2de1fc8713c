-- ===== src/Results/Label.antt =====
-- The label of a test over several seeds, in tools/parse_results.py.
pub mod Agreement
pub mod Order
use sst_sat.Base.{
  ℕ, suc, ◌+◌, ◌-◌, Bool, true, false, ◌&&◌, ◌||◌, not, List, [], ◌∷◌, ◌++◌, length, ltb, ◌==◌,
  if◌then◌else◌,
}
use sst_sat.Python.Text.{Text, codes, eq_text, split, starts_with, has_char}
use sst_sat.Python.Number.{str_ℕ}
use sst_sat.Results.Score.{excluded_label, timeout_label}

-- in unique_labels
abbrev pub has_label : Text → List Text → Bool
has_label t [] = false
has_label t (u ∷ us) = eq_text u t || has_label t us

-- sum(1 for lbl in seed_labels if lbl != label)
abbrev pub others : Text → List Text → ℕ
others t [] = 0
others t (u ∷ us) = (if eq_text u t then 0 else 1) + others t us

-- f'{label} {n}' if n > 0 else label
unfoldable pub counted_label : Text → ℕ → Text
unfolding str_ℕ
counted_label t n = if ltb 0 n then t ++ (codes " " ++ str_ℕ n) else t

-- The labels are not all the same. `len(seed_labels) - error_count` counts those that are not ERROR.
unfoldable pub mixed_label : List Text → Text
unfolding counted_label
mixed_label labels =
    if has_label (codes "SAT") labels && has_label (codes "UNSAT") labels
    then codes "ERROR"
    else if has_label (codes "SAT") labels
    then counted_label (codes "SAT") (others (codes "SAT") labels)
    else if has_label (codes "UNSAT") labels
    then counted_label (codes "UNSAT") (others (codes "UNSAT") labels)
    else if has_label (codes "ERROR") labels
    then counted_label (codes "ERROR") (others (codes "ERROR") labels)
    else if has_label (codes "TIMEOUT") labels
    then counted_label (codes "TIMEOUT") (others (codes "TIMEOUT") labels)
    else counted_label (codes "UNKNOWN") (others (codes "UNKNOWN") labels)

-- `seed_labels` is not empty where this is called.
unfoldable pub aggregate_label : List Text → Text
unfolding mixed_label
aggregate_label [] = []
aggregate_label (t ∷ labels) = if others t labels == 0 then t else mixed_label (t ∷ labels)

-- result_str.split()[0] if result_str else ''
abbrev first_word : List Text → Text
first_word [] = []
first_word (w ∷ ws) = w

unfoldable pub primary_label : Text → Text
unfolding split
primary_label label = first_word (split label)

-- is_abnormal or is_mixed_non_timeout
unfoldable pub has_no_figures : Text → Bool
unfolding primary_label
has_no_figures label =
    excluded_label (primary_label label)
    || (has_char b' ' label && not (timeout_label (primary_label label)))
