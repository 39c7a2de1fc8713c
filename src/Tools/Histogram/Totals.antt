-- ===== src/Tools/Histogram/Totals.antt =====
-- What the totals of the bins are.
use sst_sat.Base.{◌≡◌, sym, ap, ◌∙◌, arith, inl, inr, Bool-cases, List, [], ◌∷◌, if◌then◌else◌}
use sst_sat.Base.Int.{ℤ, pos, negsuc, ◌+ℤ◌, eqb_ℤ, eqb_ℤ_iff, +ℤ_assoc}
use sst_sat.Base.Dict.{lookup, insert, lookup-insert}
use sst_sat.Python.Text.{Text, Text_eq, eq_text, eq_text_iff}
use sst_sat.Log.Value.{Stats}
use sst_sat.Tools.Histogram.{
  HistogramBins, bins_at, key_str, Totals, total_of, add_bins, add_results, aggregate_bins, add_bin,
}

-- The samples of the bins with a key, in one result and in several.
unfoldable pub samples_of : {F : Type 0} → Text → HistogramBins F → ℤ
samples_of k [] = pos 0
samples_of k ((j, b) ∷ bs) = (if eq_text (key_str j) k then b.samples else pos 0) +ℤ samples_of k bs

unfoldable pub samples_in_all : {F : Type 0} → Text → Text → List (Stats F) → ℤ
samples_in_all key k [] = pos 0
samples_in_all key k (r ∷ rs) = samples_of k (bins_at key r) +ℤ samples_in_all key k rs

+ℤ_zero : (a : ℤ) → a +ℤ pos 0 ≡ a
unfolding ◌+ℤ◌
+ℤ_zero (pos n) = ground arith
+ℤ_zero (negsuc n) = ground arith

zero_+ℤ : (a : ℤ) → pos 0 +ℤ a ≡ a
unfolding ◌+ℤ◌
zero_+ℤ (pos n) = ground arith
zero_+ℤ (negsuc n) = ground arith

total_of-insert :
    (k j : Text) (v : ℤ) (totals : Totals)
    → total_of j (insert k v totals) ≡ (if eq_text k j then v else total_of j totals)
total_of-insert k j v totals = ground (arith, lookup-insert k j v totals)

total_of-add_bin :
    (k j : Text) (samples : ℤ) (totals : Totals)
    → total_of k (add_bin j samples totals)
      ≡ total_of k totals +ℤ (if eq_text j k then samples else pos 0)
unfolding add_bin
total_of-add_bin k j samples totals = elim (Bool-cases (eqb_ℤ samples (pos 0))) [
  | inl e ↦ ground (arith, e, (eqb_ℤ_iff samples (pos 0)).0 e, +ℤ_zero (total_of k totals))
  | inr e ↦ ground (
    arith,
    e,
    total_of-insert j k (total_of j totals +ℤ samples) totals,
    eq_text_iff j k,
    +ℤ_zero (total_of k totals),
  )
]

-- What a bin adds to the total of a key.
add_bins-adds :
    {F : Type 0} (k : Text) (bs : HistogramBins F) (totals : Totals)
    → total_of k (add_bins bs totals) ≡ total_of k totals +ℤ samples_of k bs
unfolding add_bins samples_of
add_bins-adds k [] totals = sym (+ℤ_zero (total_of k totals))
add_bins-adds k ((j, b) ∷ bs) totals =
    add_bins-adds k bs (add_bin (key_str j) b.samples totals)
    ∙ ap (λ x. x +ℤ samples_of k bs) (total_of-add_bin k (key_str j) b.samples totals)
    ∙ +ℤ_assoc (total_of k totals) (if eq_text (key_str j) k then b.samples else pos 0)
        (samples_of k bs)

add_results-adds :
    {F : Type 0} (key k : Text) (rs : List (Stats F)) (totals : Totals)
    → total_of k (add_results key rs totals) ≡ total_of k totals +ℤ samples_in_all key k rs
unfolding add_results samples_in_all
add_results-adds key k [] totals = sym (+ℤ_zero (total_of k totals))
add_results-adds key k (r ∷ rs) totals =
    add_results-adds key k rs (add_bins (bins_at key r) totals)
    ∙ ap (λ x. x +ℤ samples_in_all key k rs) (add_bins-adds k (bins_at key r) totals)
    ∙ +ℤ_assoc (total_of k totals) (samples_of k (bins_at key r)) (samples_in_all key k rs)

-- The total under a key is the sum of the samples of the bins with that key in all the results.
pub aggregate_bins-sum :
    {F : Type 0} (results : List (Stats F)) (key k : Text)
    → total_of k (aggregate_bins results key) ≡ samples_in_all key k results
unfolding aggregate_bins lookup
aggregate_bins-sum results key k =
    add_results-adds key k results [] ∙ zero_+ℤ (samples_in_all key k results)
