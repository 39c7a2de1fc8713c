-- ===== src/Results/Label/Agreement.antt =====
-- What a test's label says of its seeds.
use sst_sat.Base.{
  ℕ, zero, suc, ◌≡◌, refl, sym, ap, ◌∙◌, arith, true, false, Bool-cases, inl, inr, List, [], ◌∷◌,
  ◌==◌, ◌≢◌,
}
use sst_sat.Base.Lists.{All}
use sst_sat.Base.Tests.{==_iff}
use sst_sat.Python.Text.{Text, codes, eq_text, eq_text_iff}
use sst_sat.Results.Score.{solved_label}
use sst_sat.Results.Label.{others, counted_label, mixed_label, aggregate_label}

others-All : (s : Text) (labels : List Text) → others s labels ≡ 0 → All (λ l. l ≡ s) labels
others-All s [] h = tt
others-All s (l ∷ labels) h = elim (Bool-cases (eq_text l s)) [
  | inl e ↦ ((eq_text_iff l s).0 e, others-All s labels (ground (arith, e, h)))
  | inr e ↦ ground (arith, e, h)
]

counted_label-sat : (n : ℕ) → counted_label (codes "SAT") n ≡ codes "SAT" → n ≡ 0
unfolding counted_label
counted_label-sat zero h = refl
counted_label-sat (suc n) h = ground arith

counted_label-unsat : (n : ℕ) → counted_label (codes "UNSAT") n ≡ codes "UNSAT" → n ≡ 0
unfolding counted_label
counted_label-unsat zero h = refl
counted_label-unsat (suc n) h = ground arith

abbrev first : Text → ℕ
first [] = 0
first (c ∷ t) = c

first-counted_label : (c : ℕ) (t : Text) (n : ℕ) → first (counted_label (c ∷ t) n) ≡ c
unfolding counted_label
first-counted_label c t zero = refl
first-counted_label c t (suc n) = ground arith

counted_label-ne :
    (c : ℕ) (t : Text) (n : ℕ) (s : Text) → (first s == c) ≡ false → counted_label (c ∷ t) n ≢ s
counted_label-ne c t n s differs h =
    ground (arith, first-counted_label c t n, ap first h, ==_iff (first s) c, differs)

mixed_label-sat :
    (labels : List Text) → mixed_label labels ≡ codes "SAT" → others (codes "SAT") labels ≡ 0
unfolding mixed_label
mixed_label-sat labels h = ground (
  arith,
  counted_label-sat (others (codes "SAT") labels),
  counted_label-ne b'U' (codes "NSAT") (others (codes "UNSAT") labels) (codes "SAT") refl,
  counted_label-ne b'E' (codes "RROR") (others (codes "ERROR") labels) (codes "SAT") refl,
  counted_label-ne b'T' (codes "IMEOUT") (others (codes "TIMEOUT") labels) (codes "SAT") refl,
  counted_label-ne b'U' (codes "NKNOWN") (others (codes "UNKNOWN") labels) (codes "SAT") refl,
)

unknown-ne : (n : ℕ) → counted_label (codes "UNKNOWN") n ≢ codes "UNSAT"
unfolding counted_label
unknown-ne zero h = ground arith
unknown-ne (suc n) h = ground arith

mixed_label-unsat :
    (labels : List Text) → mixed_label labels ≡ codes "UNSAT" → others (codes "UNSAT") labels ≡ 0
unfolding mixed_label
mixed_label-unsat labels h = ground (
  arith,
  counted_label-unsat (others (codes "UNSAT") labels),
  counted_label-ne b'S' (codes "AT") (others (codes "SAT") labels) (codes "UNSAT") refl,
  counted_label-ne b'E' (codes "RROR") (others (codes "ERROR") labels) (codes "UNSAT") refl,
  counted_label-ne b'T' (codes "IMEOUT") (others (codes "TIMEOUT") labels) (codes "UNSAT") refl,
  unknown-ne (others (codes "UNKNOWN") labels),
)

mixed_label-solved :
    (s : Text) (labels : List Text)
    → solved_label s ≡ true
    → mixed_label labels ≡ s
    → others s labels ≡ 0
mixed_label-solved s labels solved h = elim (Bool-cases (eq_text s (codes "SAT"))) [
  | inl e ↦
      let is_sat = (eq_text_iff s (codes "SAT")).0 e in
      ap (λ x. others x labels) is_sat ∙ mixed_label-sat labels (h ∙ is_sat)
  | inr e ↦
      let is_unsat = (eq_text_iff s (codes "UNSAT")).0 (ground (arith, e, solved)) in
      ap (λ x. others x labels) is_unsat ∙ mixed_label-unsat labels (h ∙ is_unsat)
]

-- A test whose label is SAT has the result SAT for each of its seeds, and the same holds for UNSAT.
pub aggregate_label-solved :
    (s : Text) (labels : List Text)
    → solved_label s ≡ true
    → aggregate_label labels ≡ s
    → All (λ l. l ≡ s) labels
unfolding aggregate_label
aggregate_label-solved s [] solved h = tt
aggregate_label-solved s (t ∷ labels) solved h = elim (Bool-cases (others t labels == 0)) [
  | inl e ↦
      let same : t ≡ s = ground (arith, e, h) in
      (same, others-All s labels (ap (λ x. others x labels) (sym same) ∙ ground (arith, e)))
  | inr e ↦
      others-All s (t ∷ labels) (mixed_label-solved s (t ∷ labels) solved (ground (arith, e, h)))
]
