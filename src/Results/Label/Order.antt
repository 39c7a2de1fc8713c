-- ===== src/Results/Label/Order.antt =====
-- The label of a test does not depend on the order of the seeds.
use sst_sat.Base.{
  ◌+◌, ◌≡◌, refl, sym, ap, ◌∙◌, arith, true, false, ◌||◌, Bool-cases, inl, inr, List, [], ◌∷◌, ◌==◌,
  if◌then◌else◌,
}
use sst_sat.Python.Text.{Text, codes, eq_text, eq_text_iff}
use sst_sat.Results.Label.{has_label, others, mixed_label, aggregate_label}
use mathlib.Core.List.{Perm, foldr}
use mathlib.Core.List.Perm
use native.Mathlib.Nat.{ℕ_set}
use mathlib.Core.Bool.{Bool-set}

has_label-foldr :
    (t : Text) (us : List Text) → foldr (λ u b. eq_text u t || b) false us ≡ has_label t us
has_label-foldr t [] = refl
has_label-foldr t (u ∷ us) = ap (λ b. eq_text u t || b) (has_label-foldr t us)

others-foldr :
    (t : Text) (us : List Text)
    → foldr (λ u n. (if eq_text u t then 0 else 1) + n) 0 us ≡ others t us
others-foldr t [] = refl
others-foldr t (u ∷ us) = ap (λ n. (if eq_text u t then 0 else 1) + n) (others-foldr t us)

has_label-perm : (t : Text) {us vs : List Text} → Perm us vs → has_label t us ≡ has_label t vs
has_label-perm t {us = us} {vs = vs} p =
    sym (has_label-foldr t us)
    ∙ Perm.foldr-eq Bool-set (λ u b. eq_text u t || b) (λ u v b. ground arith) p false
    ∙ has_label-foldr t vs

others-perm : (t : Text) {us vs : List Text} → Perm us vs → others t us ≡ others t vs
others-perm t {us = us} {vs = vs} p =
    sym (others-foldr t us)
    ∙ Perm.foldr-eq ℕ_set (λ u n. (if eq_text u t then 0 else 1) + n) (λ u v n. omega arith) p 0
    ∙ others-foldr t vs

mixed_label-perm : {us vs : List Text} → Perm us vs → mixed_label us ≡ mixed_label vs
unfolding mixed_label
mixed_label-perm p =
    rw
      (
        has_label-perm (codes "SAT") p,
        has_label-perm (codes "UNSAT") p,
        has_label-perm (codes "ERROR") p,
        has_label-perm (codes "TIMEOUT") p,
        others-perm (codes "SAT") p,
        others-perm (codes "UNSAT") p,
        others-perm (codes "ERROR") p,
        others-perm (codes "TIMEOUT") p,
        others-perm (codes "UNKNOWN") p,
      )
      refl

eq_text_refl : (t : Text) → eq_text t t ≡ true
eq_text_refl t = (eq_text_iff t t).1 refl

-- No other label, so the first is this one.
others-head : (t u : Text) (us : List Text) → others t (u ∷ us) ≡ 0 → u ≡ t
others-head t u us h = (eq_text_iff u t).0 (ground arith)

others_self : (t : Text) (us : List Text) → others t (t ∷ us) ≡ others t us
others_self t us = ground (arith, eq_text_refl t)

some_others :
    {t u : Text} (us vs : List Text)
    → Perm (t ∷ us) (u ∷ vs)
    → others t us == 0 ≡ false
    → others u vs == 0 ≡ false
some_others {t = t} {u = u} us vs p e = elim (Bool-cases (others u vs == 0)) [
  | inl h ↦
      let none_here : others u (t ∷ us) ≡ 0 =
        ground (arith, h, others-perm u p, others_self u vs) in
      let same = others-head u t us none_here in
      ground (arith, ap (λ x. others x (t ∷ us)) same, none_here, others_self t us)
  | inr h ↦ h
]

-- Seeds in another order give the same label.
pub aggregate_label-perm :
    (labels others_labels : List Text)
    → Perm labels others_labels
    → aggregate_label labels ≡ aggregate_label others_labels
unfolding aggregate_label
aggregate_label-perm [] [] p = refl
aggregate_label-perm [] (u ∷ vs) p = ap aggregate_label (Perm.nil-eq p)
aggregate_label-perm (t ∷ us) [] p = ap aggregate_label (Perm.eq-nil p)
aggregate_label-perm (t ∷ us) (u ∷ vs) p = elim (Bool-cases (others t us == 0)) [
  | inl e ↦
      let none_here : others t (u ∷ vs) ≡ 0 =
        ground (arith, e, others-perm t p, others_self t us) in
      let same = others-head t u vs none_here in
      let none_there : others u vs ≡ 0 =
        omega (arith, ap (λ x. others x (u ∷ vs)) same, none_here, others_self u vs) in
      ground (arith, e, none_there, same)
  | inr e ↦
      let some_there : others u vs == 0 ≡ false = some_others us vs p e in
      ground (arith, e, some_there, mixed_label-perm p)
]
