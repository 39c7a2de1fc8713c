-- ===== src/Tools/Breakdown/SameLabel.antt =====
-- The label of a test over several seeds, in tools/parse_prop_breakdown.py and in tools/parse_results.py.
use sst_sat.Base.{
  ◌≡◌, refl, sym, ap, ap₂, ◌∙◌, arith, Bool, true, false, ◌&&◌, ◌||◌, Bool-cases, inl, inr, List,
  [], ◌∷◌, ◌==◌,
}
use sst_sat.Python.Text.{Text, codes, eq_text, eq_text_iff, null}
use sst_sat.Results.Score.{solved_label}
use sst_sat.Results.Label.{has_label, others, counted_label, mixed_label, aggregate_label}
use sst_sat.Tools.Breakdown.{unsolved, solved_labels, all_are, base_label, breakdown_label}

or_swap : (a b : Bool) → a || b ≡ b || a
or_swap a b = ground arith

unsat_or_sat : (t : Text) → solved_label t ≡ (eq_text t (codes "UNSAT") || eq_text t (codes "SAT"))
unsat_or_sat t = or_swap (eq_text t (codes "SAT")) (eq_text t (codes "UNSAT"))

-- One of SAT and UNSAT is `s`, and `u` is the other one, which no seed has.
module _ (s u : Text) (solved : (t : Text) → solved_label t ≡ (eq_text t s || eq_text t u)) where
  unsolved-others :
      (labels : List Text) → has_label u labels ≡ false → unsolved labels ≡ others s labels
  unsolved-others [] h = refl
  unsolved-others (t ∷ labels) h = ground (arith, h, solved t, unsolved-others labels)

  all_are-solved :
      (labels : List Text) → has_label u labels ≡ false → all_are s (solved_labels labels) ≡ true
  all_are-solved [] h = refl
  all_are-solved (t ∷ labels) h = ground (arith, h, solved t, all_are-solved labels)

  null-solved :
      (labels : List Text) → has_label s labels ≡ true → null (solved_labels labels) ≡ false
  null-solved [] h = ground arith
  null-solved (t ∷ labels) h = ground (arith, h, solved t, null-solved labels)

others-has_label :
    (s t : Text) (labels : List Text) → others t labels ≡ 0 → has_label s labels ≡ true → t ≡ s
others-has_label s t [] e h = ground arith
others-has_label s t (x ∷ labels) e h =
    ground (arith, e, h, eq_text_iff x t, eq_text_iff x s, others-has_label s t labels)

base_label-sat :
    (ts : List Text)
    → all_are (codes "SAT") ts ≡ true
    → null ts ≡ false
    → base_label ts ≡ codes "SAT"
base_label-sat [] h k = ground arith
base_label-sat (t ∷ ts) h k = ground (arith, h)

base_label-unsat :
    (ts : List Text)
    → all_are (codes "UNSAT") ts ≡ true
    → null ts ≡ false
    → base_label ts ≡ codes "UNSAT"
base_label-unsat [] h k = ground arith
base_label-unsat (t ∷ ts) h k =
    let all : eq_text t (codes "UNSAT") ≡ true = ground (arith, h) in
    ground (arith, h, ap (λ x. eq_text x (codes "SAT")) ((eq_text_iff t (codes "UNSAT")).0 all))

mixed_label-sat :
    (labels : List Text)
    → has_label (codes "SAT") labels ≡ true
    → has_label (codes "UNSAT") labels ≡ false
    → mixed_label labels ≡ counted_label (codes "SAT") (others (codes "SAT") labels)
unfolding mixed_label
mixed_label-sat labels h k = ground (arith, h, k)

mixed_label-unsat :
    (labels : List Text)
    → has_label (codes "UNSAT") labels ≡ true
    → has_label (codes "SAT") labels ≡ false
    → mixed_label labels ≡ counted_label (codes "UNSAT") (others (codes "UNSAT") labels)
unfolding mixed_label
mixed_label-unsat labels h k = ground (arith, h, k)

counted_label_zero : (t : Text) → counted_label t 0 ≡ t
unfolding counted_label
counted_label_zero t = refl

head_label :
    (t : Text) (labels : List Text) → others t labels == 0 ≡ true → aggregate_label (t ∷ labels) ≡ t
unfolding aggregate_label
head_label t labels z = ground (arith, z)

aggregate_label-counted :
    (s : Text) (labels : List Text)
    → has_label s labels ≡ true
    → mixed_label labels ≡ counted_label s (others s labels)
    → aggregate_label labels ≡ counted_label s (others s labels)
unfolding aggregate_label
aggregate_label-counted s [] h e = ground arith
aggregate_label-counted s (t ∷ labels) h e = elim (Bool-cases (others t labels == 0)) [
  | inl z ↦
      let none_other : others t (t ∷ labels) ≡ 0 = ground (arith, z, eq_text_iff t t) in
      let same = others-has_label s t (t ∷ labels) none_other h in
      let zero : others s (t ∷ labels) ≡ 0 =
        ap (λ x. others x (t ∷ labels)) (sym same) ∙ none_other in
      head_label t labels z ∙ same ∙ sym (counted_label_zero s) ∙ ap (counted_label s) (sym zero)
  | inr z ↦ ground (arith, z, e)
]

-- Where some seed is SAT or UNSAT but not both occur, the two tools give the test the same label.
pub breakdown_label-aggregate :
    (labels : List Text)
    → has_label (codes "SAT") labels || has_label (codes "UNSAT") labels ≡ true
    → has_label (codes "SAT") labels && has_label (codes "UNSAT") labels ≡ false
    → breakdown_label labels ≡ aggregate_label labels
unfolding breakdown_label
breakdown_label-aggregate labels one both = elim (Bool-cases (has_label (codes "SAT") labels)) [
  | inl e ↦
      let no_unsat : has_label (codes "UNSAT") labels ≡ false = ground (arith, e, one, both) in
      ap₂ counted_label
        (base_label-sat (solved_labels labels)
          (all_are-solved (codes "SAT") (codes "UNSAT") (λ t. refl) labels no_unsat)
          (null-solved (codes "SAT") (codes "UNSAT") (λ t. refl) labels e))
        (unsolved-others (codes "SAT") (codes "UNSAT") (λ t. refl) labels no_unsat)
      ∙ sym (aggregate_label-counted (codes "SAT") labels e (mixed_label-sat labels e no_unsat))
  | inr e ↦
      let unsat : has_label (codes "UNSAT") labels ≡ true = ground (arith, e, one, both) in
      ap₂ counted_label
        (base_label-unsat (solved_labels labels)
          (all_are-solved (codes "UNSAT") (codes "SAT") unsat_or_sat labels e)
          (null-solved (codes "UNSAT") (codes "SAT") unsat_or_sat labels unsat))
        (unsolved-others (codes "UNSAT") (codes "SAT") unsat_or_sat labels e)
      ∙ sym
          (aggregate_label-counted (codes "UNSAT") labels unsat (mixed_label-unsat labels unsat e))
]
