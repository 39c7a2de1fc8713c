-- ===== src/Results/Single/Equivalence.antt =====
-- The score of a folder without seeds is the score of a seed folder, computed on the results as they
-- are read.
use sst_sat.Base.{
  ℕ, ◌+◌, ◌-◌, ◌≡◌, refl, sym, ap, ◌∙◌, arith, Bool, true, false, Bool-cases, inl, inr, Option,
  some, List, [], ◌∷◌, ◌++◌, length, length-append, ap₂,
}
use mathlib.Core.Option.{some-injective}
use sst_sat.Base.Dict.{has_key}
use sst_sat.Python.Text.{Text, Text_eq, codes}
use sst_sat.Python.Sorted.{sorted}
use sst_sat.Log.Value.{Floats, Stats, ◌>>=◌, >>=-some}
use sst_sat.Log.Number.{Arithmetic, zero_float}
use sst_sat.Results.Score.{
  label_of, case_of, le_case, excluded_label, Score, timeout_ms, contribution, score_run, score_all,
  no_score, Par2, compute_par2_and_solved, par2_of, par2_from,
}
use sst_sat.Results.Single.{
  reclassify_all, score_named, score_of, all_named, valid_results, score_valid, single_run_score,
}
use sst_sat.Results.Single.Marks.{excluded-reclassify, contribution-reclassify}
use sst_sat.Results.Single.Order.{
  Reclassified, none_left, next, reclassify_all-Reclassified, Reclassified-sorted,
}

-- A score with other excluded runs.
abbrev with_excluded : {F : Type 0} → List Text → Score F → Score F
with_excluded names s = record s { excluded = names }

module _ (fl : Floats) (ar : Arithmetic fl.Float) (timeout_seconds : fl.Float) where
  score_valid-nil : (s u : Score fl.Float) → score_valid fl ar timeout_seconds [] s ≡ some u → s ≡ u
  unfolding score_valid
  score_valid-nil s u h = some-injective s u h

  -- What the loop over the valid results adds for the first of them.
  score_valid-cons :
      (r : Stats fl.Float) (rs : List (Stats fl.Float)) (s u : Score fl.Float)
      → score_valid fl ar timeout_seconds (r ∷ rs) s ≡ some u
      → (c : fl.Float × Bool) × (contribution fl ar timeout_seconds r ≡ some c)
        × (score_valid fl ar timeout_seconds rs (score_run fl ar timeout_seconds c s) ≡ some u)
  unfolding score_valid
  score_valid-cons r rs s u h = elim (Bool-cases (has_key (codes "result") r)) [
    | inl e ↦
        >>=-some (contribution fl ar timeout_seconds r)
          (λ c. score_valid fl ar timeout_seconds rs (score_run fl ar timeout_seconds c s)) u
          (ground arith)
    | inr e ↦ ground arith
  ]

  score_named-some :
      (qs : List (Stats fl.Float)) (par2 : fl.Float) (solved : ℕ)
      → score_named fl ar timeout_seconds qs ≡ some (par2, solved)
      → (u : Score fl.Float) × (score_valid fl ar timeout_seconds
            (valid_results fl ar timeout_seconds (sorted le_case qs))
            (no_score fl ar timeout_seconds)
          ≡ some u)
        × (score_of fl ar timeout_seconds
              (length (valid_results fl ar timeout_seconds (sorted le_case qs)))
              u
            ≡ some (par2, solved))
  unfolding score_named
  score_named-some qs par2 solved h =
      let valid = valid_results fl ar timeout_seconds (sorted le_case qs) in
      elim (Bool-cases (all_named fl ar timeout_seconds qs)) [
        | inl e ↦
            >>=-some (score_valid fl ar timeout_seconds valid (no_score fl ar timeout_seconds))
              (score_of fl ar timeout_seconds (length valid)) (par2, solved) (ground arith)
        | inr e ↦ ground arith
      ]

-- A time limit is not below 0, and x <= y fails if y < x.
module _ (fl : Floats) (ar : Arithmetic fl.Float) (timeout_seconds : fl.Float)
    (less_at_most : (x y : fl.Float) → ar.less x y ≡ true → ar.at_most y x ≡ false)
    (limit : ar.less (timeout_ms fl ar timeout_seconds) (zero_float fl ar) ≡ false) where
  score_all-valid :
      (r : Stats fl.Float) (rs : List (Stats fl.Float)) (c : fl.Float × Bool) (s : Score fl.Float)
      → excluded_label (label_of r) ≡ false
      → contribution fl ar timeout_seconds r ≡ some c
      → score_all fl ar timeout_seconds (r ∷ rs) s
        ≡ score_all fl ar timeout_seconds rs (score_run fl ar timeout_seconds c s)
  unfolding score_all
  score_all-valid r rs c s x e = rw (x, e) refl

  score_valid-score_all :
      {rs qs : List (Stats fl.Float)}
      → Reclassified fl ar timeout_seconds rs qs
      → (s u : Score fl.Float) (names : List Text)
      → score_valid fl ar timeout_seconds (valid_results fl ar timeout_seconds qs) s ≡ some u
      → (more : List Text) × (score_all fl ar timeout_seconds rs (with_excluded names s)
          ≡ some (with_excluded more u))
        × (length more + length (valid_results fl ar timeout_seconds qs) ≡ length names + length rs)
  unfolding score_all valid_results
  score_valid-score_all none_left s u names h = (
    names,
    ap (λ x. some (with_excluded names x)) (score_valid-nil fl ar timeout_seconds s u h),
    refl,
  )
  score_valid-score_all (next {r = r} {q = q} {rs = rs} {qs = qs} e rest) s u names h =
      let same = excluded-reclassify fl ar timeout_seconds r q e in
      elim (Bool-cases (excluded_label (label_of r))) [
        | inl x ↦
            let (more, scored, count) =
              score_valid-score_all rest s u (names ++ (case_of r ∷ []))
                (ground (arith, same, x)) in
            (
              more,
              ground (arith, x, scored),
              ground (arith, same, x, count, length-append names (case_of r ∷ [])),
            )
        | inr x ↦
            let (c, e2, h2) =
              score_valid-cons fl ar timeout_seconds q (valid_results fl ar timeout_seconds qs) s u
                (ground (arith, same, x)) in
            let (more, scored, count) =
              score_valid-score_all rest (score_run fl ar timeout_seconds c s) u names h2 in
            (
              more,
              score_all-valid r rs c (with_excluded names s) x (
                    sym (contribution-reclassify fl ar timeout_seconds less_at_most limit r q e)
                    ∙ e2)
                  ∙ scored,
              ground (arith, same, x, count),
            )
      ]

  abbrev par2_with : Score fl.Float → ℕ → Option (Par2 fl.Float)
  par2_with u n = some (record {
    par2_seconds = par2_of fl ar timeout_seconds u.total n;
    solved_count = u.solved;
    excluded_tests = u.excluded;
  })

  score_all-nil :
      (u : Score fl.Float)
      → score_all fl ar timeout_seconds [] (no_score fl ar timeout_seconds) ≡ some u
      → no_score fl ar timeout_seconds ≡ u
  unfolding score_all
  score_all-nil u h = some-injective (no_score fl ar timeout_seconds) u h

  compute_par2_and_solved-scored :
      (rs : List (Stats fl.Float)) (u : Score fl.Float) (valid : ℕ)
      → score_all fl ar timeout_seconds rs (no_score fl ar timeout_seconds) ≡ some u
      → length u.excluded + valid ≡ length rs
      → (names : List Text) × (compute_par2_and_solved fl ar timeout_seconds rs
          ≡ some (record {
            par2_seconds = par2_of fl ar timeout_seconds u.total valid;
            solved_count = u.solved;
            excluded_tests = names;
          }))
  unfolding compute_par2_and_solved
  compute_par2_and_solved-scored [] u valid h e =
      let all : 0 ≡ valid = omega (arith, e) in
      (
        [],
        ap₂ (λ (x : Score fl.Float) (n : ℕ). par2_with (with_excluded [] x) n) (score_all-nil u h)
            all,
      )
  compute_par2_and_solved-scored (r ∷ rs) u valid h e =
      let left : length (r ∷ rs) - length u.excluded ≡ valid = omega (arith, e) in
      (
        u.excluded,
        ap (λ o. o >>= par2_from fl ar timeout_seconds (length (r ∷ rs))) h ∙ ap (par2_with u) left,
      )

  -- If the folder without seeds has a score, it is the score that a seed folder with these results in
  -- the order of their names has, for floats where y <= x fails if x < y, and a time limit that is not
  -- below 0.
  pub single_run_score-par2 :
      (rs : List (Stats fl.Float)) (par2 : fl.Float) (solved : ℕ)
      → single_run_score fl ar timeout_seconds rs ≡ some (par2, solved)
      → (names : List Text) × (compute_par2_and_solved fl ar timeout_seconds (sorted le_case rs)
          ≡ some (record { par2_seconds = par2; solved_count = solved; excluded_tests = names }))
  unfolding single_run_score score_named
  single_run_score-par2 rs par2 solved h =
      let (qs, e, h1) =
        >>=-some (reclassify_all fl ar timeout_seconds rs) (score_named fl ar timeout_seconds)
          (par2, solved) h in
      let same =
        Reclassified-sorted fl ar timeout_seconds
          (reclassify_all-Reclassified fl ar timeout_seconds rs qs e) in
      let valid = valid_results fl ar timeout_seconds (sorted le_case qs) in
      let (u, scored, e2) = score_named-some fl ar timeout_seconds qs par2 solved h1 in
      let (more, all_scored, count) =
        score_valid-score_all same (no_score fl ar timeout_seconds) u [] scored in
      let (names, e3) =
        compute_par2_and_solved-scored (sorted le_case rs) (with_excluded more u) (length valid)
          all_scored (omega (arith, count)) in
      (
        names,
        e3
            ∙ ap
                (λ (p : fl.Float × ℕ).
                  some (record { par2_seconds = p.0; solved_count = p.1; excluded_tests = names }))
                (some-injective _ _ e2),
      )
