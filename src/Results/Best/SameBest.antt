-- ===== src/Results/Best/SameBest.antt =====
-- The loop for a row that --dump-best writes finds the time that the best-of-seeds score counts.
use sst_sat.Base.{
  ◌≡◌, ap, arith, true, false, Bool-cases, inl, inr, Option, some, none, Option-cases, List, [],
  ◌∷◌, if◌then◌else◌,
}
use sst_sat.Base.Dict.{lookup}
use sst_sat.Python.Text.{Text, Text_eq, codes, eq_text, eq_text_iff}
use sst_sat.Log.Value.{Floats, Stats, ◌>>=◌, >>=-some}
use sst_sat.Log.Number.{Arithmetic}
use sst_sat.Results.Score.{
  label_of, excluded_label, solved_label, timeout_label, penalty, sim_ms, in_time,
}
use sst_sat.Results.Single.{time_or_zero}
use sst_sat.Results.Best.{
  SeedMap, seed_time, seed_contribution, better, best_contribution, best_entry,
}

-- A label that is not SAT and not UNSAT.
excluded-unsolved : (t : Text) → excluded_label t ≡ true → solved_label t ≡ false
excluded-unsolved t h = elim (Bool-cases (eq_text t (codes "ERROR"))) [
  | inl e ↦ ap solved_label ((eq_text_iff t (codes "ERROR")).0 e)
  | inr e ↦ ap solved_label ((eq_text_iff t (codes "UNKNOWN")).0 (ground (arith, e, h)))
]

timeout-unsolved : (t : Text) → timeout_label t ≡ true → solved_label t ≡ false
timeout-unsolved t h = ap solved_label ((eq_text_iff t (codes "TIMEOUT")).0 h)

module _ (fl : Floats) (ar : Arithmetic fl.Float) (timeout_seconds : fl.Float)
    (irreflexive : (x : fl.Float) → ar.less x x ≡ false)
    (transitive : (x y z : fl.Float)
      → ar.less x y ≡ true
      → ar.less y z ≡ true
      → ar.less x z ≡ true) where
  seed_time-unsolved :
      (entry : Stats fl.Float) (c : fl.Float)
      → solved_label (label_of entry) ≡ false
      → seed_time fl ar timeout_seconds entry ≡ some c
      → penalty fl ar timeout_seconds ≡ c
  unfolding seed_time
  seed_time-unsolved entry c x h =
      let (ms, _, e) =
        >>=-some (time_or_zero fl ar timeout_seconds (sim_ms fl ar timeout_seconds entry))
          (λ ms. some (in_time fl ar timeout_seconds (label_of entry) ms).0) c h in
      ground (arith, e, x)

  seed_contribution-time :
      (entry : Stats fl.Float) (c : fl.Float)
      → seed_time fl ar timeout_seconds entry ≡ some c
      → seed_contribution fl ar timeout_seconds entry ≡ some c
  unfolding seed_contribution
  seed_contribution-time entry c h = elim (Bool-cases (timeout_label (label_of entry))) [
    | inl e ↦ ground (arith, e, seed_time-unsolved entry c (timeout-unsolved (label_of entry) e) h)
    | inr e ↦ ground (arith, e, h)
  ]

  still_low :
      (a c : fl.Float)
      → ar.less (penalty fl ar timeout_seconds) a ≡ false
      → ar.less c a ≡ true
      → ar.less (penalty fl ar timeout_seconds) c ≡ false
  still_low a c low l = ground (arith, transitive (penalty fl ar timeout_seconds) c a)

  -- A seed that improves on the best is not excluded.
  counted_below :
      (entry : Stats fl.Float) (a c : fl.Float)
      → seed_time fl ar timeout_seconds entry ≡ some c
      → ar.less (penalty fl ar timeout_seconds) a ≡ false
      → ar.less c a ≡ true
      → excluded_label (label_of entry) ≡ false
  counted_below entry a c h low l = elim (Bool-cases (excluded_label (label_of entry))) [
    | inl e ↦
        let same = seed_time-unsolved entry c (excluded-unsolved (label_of entry) e) h in
        ground (arith, ap (λ x. ar.less x a) same, low, l)
    | inr e ↦ e
  ]

  best_contribution-counted :
      (test : Text) (m : SeedMap fl ar timeout_seconds) (ms : List (SeedMap fl ar timeout_seconds))
      (a b : fl.Float) (entry : Stats fl.Float) (c : fl.Float)
      → lookup test m ≡ some entry
      → seed_contribution fl ar timeout_seconds entry ≡ some c
      → excluded_label (label_of entry) ≡ false
      → best_contribution fl ar timeout_seconds test ms (better fl ar timeout_seconds c a) ≡ some b
      → best_contribution fl ar timeout_seconds test (m ∷ ms) a ≡ some b
  unfolding best_contribution
  best_contribution-counted test m ms a b entry c e e2 x h = rw (e, x, e2, best_contribution) h

  best_contribution-kept :
      (test : Text) (m : SeedMap fl ar timeout_seconds) (ms : List (SeedMap fl ar timeout_seconds))
      (a b : fl.Float) (entry : Stats fl.Float) (c : fl.Float)
      → lookup test m ≡ some entry
      → seed_contribution fl ar timeout_seconds entry ≡ some c
      → ar.less c a ≡ false
      → best_contribution fl ar timeout_seconds test ms a ≡ some b
      → best_contribution fl ar timeout_seconds test (m ∷ ms) a ≡ some b
  unfolding best_contribution
  best_contribution-kept test m ms a b entry c e e2 l h =
      elim (Bool-cases (excluded_label (label_of entry))) [
        | inl x ↦ rw (e, x, best_contribution) h
        | inr x ↦ best_contribution-counted test m ms a b entry c e e2 x (ground (arith, l, h))
      ]

  best_entry-contribution :
      (test : Text) (ms : List (SeedMap fl ar timeout_seconds)) (a b : fl.Float)
      (from found : Option (Stats fl.Float))
      → ar.less (penalty fl ar timeout_seconds) a ≡ false
      → best_entry fl ar timeout_seconds test ms (a, from) ≡ some (b, found)
      → best_contribution fl ar timeout_seconds test ms a ≡ some b
  unfolding best_entry best_contribution
  best_entry-contribution test [] a b from found low h = ap (λ o. o >>= (λ p. some p.0)) h
  best_entry-contribution test (m ∷ ms) a b from found low h = elim (Option-cases (lookup test m)) [
    | inl e ↦ ground (arith, e, best_entry-contribution test ms a b from found low)
    | inr (entry, e) ↦
        let (c, e2, more) =
          >>=-some (seed_time fl ar timeout_seconds entry)
            (λ c.
              if ar.less c a
              then best_entry fl ar timeout_seconds test ms (c, some entry)
              else best_entry fl ar timeout_seconds test ms (a, from))
            (b, found) (ground (arith, e, h)) in
        let e3 = seed_contribution-time entry c e2 in
        elim (Bool-cases (ar.less c a)) [
          | inl l ↦
              let rest =
                best_entry-contribution test ms c b (some entry) found (still_low a c low l)
                  (ground (arith, l, more)) in
              best_contribution-counted test m ms a b entry c e e3
                (counted_below entry a c e2 low l) (ground (arith, l, rest))
          | inr l ↦
              let rest =
                best_entry-contribution test ms a b from found low (ground (arith, l, more)) in
              best_contribution-kept test m ms a b entry c e e3 l rest
        ]
  ]

  -- Where the loop for the row raises no exception, it ends with the best contribution of the test.
  pub best_entry-same :
      (test : Text) (ms : List (SeedMap fl ar timeout_seconds)) (b : fl.Float)
      (found : Option (Stats fl.Float))
      → best_entry fl ar timeout_seconds test ms (penalty fl ar timeout_seconds, none)
        ≡ some (b, found)
      → best_contribution fl ar timeout_seconds test ms (penalty fl ar timeout_seconds) ≡ some b
  best_entry-same test ms b found h =
      best_entry-contribution test ms (penalty fl ar timeout_seconds) b none found
        (irreflexive (penalty fl ar timeout_seconds)) h
