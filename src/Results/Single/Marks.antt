-- ===== src/Results/Single/Marks.antt =====
-- What the reclassification of a folder without seeds leaves as it is: the name, the exclusion and the
-- contribution of a result.
use sst_sat.Base.{
  ◌≡◌, ◌⊎◌, sym, ap, ◌∙◌, arith, Bool, true, false, ◌&&◌, Bool-cases, inl, inr, some,
}
use sst_sat.Base.Dict.{insert, lookup-insert}
use sst_sat.Python.Text.{Text, Text_eq, codes, eq_text, eq_text_iff}
use sst_sat.Log.Value.{Floats, Value, real, text, Stats, >>=-some}
use sst_sat.Log.Number.{Arithmetic, Reading, float, refused, too_large, zero_float}
use sst_sat.Results.Score.{
  label_of, case_of, excluded_label, solved_label, timeout_label, timeout_ms, penalty, sim_ms,
  contribution_at, contribution, time_key,
}
use sst_sat.Results.Single.{time_or_zero, mark_timeout, put_penalty, reclassify}

solved-not_excluded : (t : Text) → solved_label t ≡ true → excluded_label t ≡ false
solved-not_excluded t h = elim (Bool-cases (eq_text t (codes "SAT"))) [
  | inl e ↦ ap excluded_label ((eq_text_iff t (codes "SAT")).0 e)
  | inr e ↦ ap excluded_label ((eq_text_iff t (codes "UNSAT")).0 (ground (arith, e, h)))
]

abbrev a_timeout : {F : Type 0} → Value F
a_timeout = text (codes "TIMEOUT")

module _ (fl : Floats) (ar : Arithmetic fl.Float) (timeout_seconds : fl.Float) where
  abbrev over_limit : Text → fl.Float → Bool
  over_limit t ms = solved_label t && ar.less (timeout_ms fl ar timeout_seconds) ms

  label_of-put_penalty :
      (r : Stats fl.Float) → label_of (put_penalty fl ar timeout_seconds r) ≡ label_of r
  unfolding put_penalty
  label_of-put_penalty r =
      ground
        (arith, lookup-insert time_key (codes "result") (real (penalty fl ar timeout_seconds)) r)

  case_of-put_penalty :
      (r : Stats fl.Float) → case_of (put_penalty fl ar timeout_seconds r) ≡ case_of r
  unfolding put_penalty
  case_of-put_penalty r =
      ground
        (arith, lookup-insert time_key (codes "test_case") (real (penalty fl ar timeout_seconds)) r)

  case_of-mark_timeout :
      (ms : fl.Float) (r : Stats fl.Float)
      → case_of (mark_timeout fl ar timeout_seconds ms r) ≡ case_of r
  unfolding mark_timeout
  case_of-mark_timeout ms r =
      ground (arith, lookup-insert (codes "result") (codes "test_case") a_timeout r)

  label_of-timeout :
      (r : Stats fl.Float)
      → label_of (insert (codes "result") (text (codes "TIMEOUT")) r) ≡ codes "TIMEOUT"
  label_of-timeout r = ground (arith, lookup-insert (codes "result") (codes "result") a_timeout r)

  -- Either the run is over the limit and becomes a timeout, or it stays as it is.
  mark_timeout-cases :
      (ms : fl.Float) (r : Stats fl.Float)
      → ((solved_label (label_of r) ≡ true)
          × (ar.less (timeout_ms fl ar timeout_seconds) ms ≡ true)
          × (label_of (mark_timeout fl ar timeout_seconds ms r) ≡ codes "TIMEOUT"))
        ⊎ (mark_timeout fl ar timeout_seconds ms r ≡ r)
  unfolding mark_timeout
  mark_timeout-cases ms r = elim (Bool-cases (over_limit (label_of r) ms)) [
    | inl e ↦ inl (ground (arith, e), ground (arith, e), ground (arith, e, label_of-timeout r))
    | inr e ↦ inr (ground (arith, e))
  ]

  excluded-mark_timeout :
      (ms : fl.Float) (r : Stats fl.Float)
      → excluded_label (label_of (mark_timeout fl ar timeout_seconds ms r))
        ≡ excluded_label (label_of r)
  excluded-mark_timeout ms r = elim (mark_timeout-cases ms r) [
    | inl (solved, _, e) ↦ ap excluded_label e ∙ sym (solved-not_excluded (label_of r) solved)
    | inr e ↦ ap (λ x. excluded_label (label_of x)) e
  ]

  contribution-timeout :
      (r : Stats fl.Float)
      → timeout_label (label_of r) ≡ true
      → contribution fl ar timeout_seconds r ≡ some (penalty fl ar timeout_seconds, false)
  unfolding contribution
  contribution-timeout r h = ground arith

  reclassify-ok :
      (r q : Stats fl.Float)
      → reclassify fl ar timeout_seconds r ≡ some q
      → (ms : fl.Float) × (time_or_zero fl ar timeout_seconds (sim_ms fl ar timeout_seconds r)
          ≡ some ms)
        × (put_penalty fl ar timeout_seconds (mark_timeout fl ar timeout_seconds ms r) ≡ q)
  unfolding reclassify
  reclassify-ok r q h =
      let (ms, e, e2) =
        >>=-some (time_or_zero fl ar timeout_seconds (sim_ms fl ar timeout_seconds r))
          (λ ms. some (put_penalty fl ar timeout_seconds (mark_timeout fl ar timeout_seconds ms r)))
          q h in
      (ms, e, ground (arith, e2))

  put_penalty-kept :
      (r : Stats fl.Float)
      → timeout_label (label_of r) ≡ false
      → put_penalty fl ar timeout_seconds r ≡ r
  unfolding put_penalty
  put_penalty-kept r h = ground arith

  pub case_of-reclassify :
      (r q : Stats fl.Float) → reclassify fl ar timeout_seconds r ≡ some q → case_of q ≡ case_of r
  case_of-reclassify r q h =
      let (ms, _, e) = reclassify-ok r q h in
      ap case_of (sym e)
      ∙ case_of-put_penalty (mark_timeout fl ar timeout_seconds ms r)
      ∙ case_of-mark_timeout ms r

  pub excluded-reclassify :
      (r q : Stats fl.Float)
      → reclassify fl ar timeout_seconds r ≡ some q
      → excluded_label (label_of q) ≡ excluded_label (label_of r)
  excluded-reclassify r q h =
      let (ms, _, e) = reclassify-ok r q h in
      ap (λ x. excluded_label (label_of x)) (sym e)
      ∙ ap excluded_label (label_of-put_penalty (mark_timeout fl ar timeout_seconds ms r))
      ∙ excluded-mark_timeout ms r

-- A time limit is not below 0, and x <= y fails if y < x.
module _ (fl : Floats) (ar : Arithmetic fl.Float) (timeout_seconds : fl.Float)
    (less_at_most : (x y : fl.Float) → ar.less x y ≡ true → ar.at_most y x ≡ false)
    (limit : ar.less (timeout_ms fl ar timeout_seconds) (zero_float fl ar) ≡ false) where
  contribution_at-over :
      (t : Text) (x : Reading fl.Float) (ms : fl.Float)
      → time_or_zero fl ar timeout_seconds x ≡ some ms
      → ar.less (timeout_ms fl ar timeout_seconds) ms ≡ true
      → contribution_at fl ar timeout_seconds t x ≡ some (penalty fl ar timeout_seconds, false)
  unfolding contribution_at
  contribution_at-over t (float x) ms h over =
      ground (arith, less_at_most (timeout_ms fl ar timeout_seconds) x)
  contribution_at-over t refused ms h over = ground arith
  contribution_at-over t too_large ms h over = ground arith

  contribution-over :
      (r : Stats fl.Float) (ms : fl.Float)
      → time_or_zero fl ar timeout_seconds (sim_ms fl ar timeout_seconds r) ≡ some ms
      → ar.less (timeout_ms fl ar timeout_seconds) ms ≡ true
      → contribution fl ar timeout_seconds r ≡ some (penalty fl ar timeout_seconds, false)
  unfolding contribution
  contribution-over r ms h over =
      ground (arith, contribution_at-over (label_of r) (sim_ms fl ar timeout_seconds r) ms h over)

  -- A timeout keeps its label when its time is replaced.
  contribution-put_penalty :
      (r : Stats fl.Float)
      → contribution fl ar timeout_seconds (put_penalty fl ar timeout_seconds r)
        ≡ contribution fl ar timeout_seconds r
  contribution-put_penalty r = elim (Bool-cases (timeout_label (label_of r))) [
    | inl e ↦
        contribution-timeout fl ar timeout_seconds (put_penalty fl ar timeout_seconds r)
          (ap timeout_label (label_of-put_penalty fl ar timeout_seconds r) ∙ e)
        ∙ sym (contribution-timeout fl ar timeout_seconds r e)
    | inr e ↦ ap (contribution fl ar timeout_seconds) (put_penalty-kept fl ar timeout_seconds r e)
  ]

  contribution-marked :
      (r : Stats fl.Float) (ms : fl.Float)
      → time_or_zero fl ar timeout_seconds (sim_ms fl ar timeout_seconds r) ≡ some ms
      → contribution fl ar timeout_seconds
          (put_penalty fl ar timeout_seconds (mark_timeout fl ar timeout_seconds ms r))
        ≡ contribution fl ar timeout_seconds r
  contribution-marked r ms read =
      contribution-put_penalty (mark_timeout fl ar timeout_seconds ms r)
      ∙ elim (mark_timeout-cases fl ar timeout_seconds ms r) [
        | inl (_, over, e) ↦
            contribution-timeout fl ar timeout_seconds (mark_timeout fl ar timeout_seconds ms r)
              (ap timeout_label e)
            ∙ sym (contribution-over r ms read over)
        | inr e ↦ ap (contribution fl ar timeout_seconds) e
      ]

  pub contribution-reclassify :
      (r q : Stats fl.Float)
      → reclassify fl ar timeout_seconds r ≡ some q
      → contribution fl ar timeout_seconds q ≡ contribution fl ar timeout_seconds r
  contribution-reclassify r q h =
      let (ms, read, e) = reclassify-ok fl ar timeout_seconds r q h in
      ap (contribution fl ar timeout_seconds) (sym e) ∙ contribution-marked r ms read
