-- ===== src/Results/Best/Row.antt =====
-- The row that --dump-best writes for a test, in tools/parse_results.py.
use mathlib.Core.Option.{some-injective}
use sst_sat.Base.{
  ◌≡◌, refl, sym, ap, ◌∙◌, arith, true, false, Bool-cases, inl, inr, ◌⊎◌, ◌&&◌, subst, Option, some,
  none, Option-cases, List, [], ◌∷◌, if◌then◌else◌,
}
use sst_sat.Base.Dict.{lookup, insert, lookup-insert}
use sst_sat.Python.Text.{Text, Text_eq, codes, eq_text}
use sst_sat.Log.Value.{Floats, real, whole, text, Stats, ◌>>=◌, >>=-some}
use sst_sat.Log.Number.{Arithmetic, text_in, figure, or_default, to_int}
use sst_sat.Log.Format.{format_bytes}
use sst_sat.Base.Int.{pos}
use sst_sat.Results.Score.{time_key, label_of, solved_label, penalty, timeout_ms, sim_ms, in_time}
use sst_sat.Results.Single.{time_or_zero}
use sst_sat.Results.Best.{
  SeedMap, seed_time, best_contribution, best_entry, placeholder, entry_or, mark_row,
  put_formatted_bytes, best_row,
}
use sst_sat.Results.Best.SameBest.{best_entry-same}

module _ (fl : Floats) (ar : Arithmetic fl.Float) (timeout_seconds : fl.Float)
    (irreflexive : (x : fl.Float) → ar.less x x ≡ false)
    (transitive : (x y z : fl.Float) → ar.less x y ≡ true → ar.less y z ≡ true → ar.less x z ≡ true)
    (less_at_most : (x y : fl.Float) → ar.less x y ≡ true → ar.at_most y x ≡ false) where
  -- A best time is the penalty, without an entry, or the time of the entry that is kept.
  IsFrom : fl.Float → Option (Stats fl.Float) → Type 0
  IsFrom b found =
      ((found ≡ none) × (b ≡ penalty fl ar timeout_seconds))
      ⊎ ((entry : Stats fl.Float) × (found ≡ some entry)
          × (seed_time fl ar timeout_seconds entry ≡ some b)
          × (ar.less b (penalty fl ar timeout_seconds) ≡ true))

  below_penalty :
      (a c : fl.Float) (from : Option (Stats fl.Float))
      → IsFrom a from
      → ar.less c a ≡ true
      → ar.less c (penalty fl ar timeout_seconds) ≡ true
  unfolding IsFrom
  below_penalty a c from (inl (none_yet, e)) l = ap (ar.less c) (sym e) ∙ l
  below_penalty a c from (inr (entry, found, timed, low)) l =
      transitive c a (penalty fl ar timeout_seconds) l low

  best_entry-IsFrom :
      (test : Text) (ms : List (SeedMap fl ar timeout_seconds)) (a b : fl.Float)
      (from found : Option (Stats fl.Float))
      → IsFrom a from
      → best_entry fl ar timeout_seconds test ms (a, from) ≡ some (b, found)
      → IsFrom b found
  unfolding best_entry IsFrom
  best_entry-IsFrom test [] a b from found k h =
      subst (λ q. IsFrom q.0 q.1) (some-injective (a, from) (b, found) h) k
  best_entry-IsFrom test (m ∷ ms) a b from found k h = elim (Option-cases (lookup test m)) [
    | inl e ↦ best_entry-IsFrom test ms a b from found k (ground (arith, e, h))
    | inr (entry, e) ↦
        let (c, timed, more) =
          >>=-some (seed_time fl ar timeout_seconds entry)
            (λ c.
              if ar.less c a
              then best_entry fl ar timeout_seconds test ms (c, some entry)
              else best_entry fl ar timeout_seconds test ms (a, from))
            (b, found) (ground (arith, e, h)) in
        elim (Bool-cases (ar.less c a)) [
          | inl l ↦
              best_entry-IsFrom test ms c b (some entry) found
                (inr (entry, refl, timed, below_penalty a c from k l)) (ground (arith, l, more))
          | inr l ↦ best_entry-IsFrom test ms a b from found k (ground (arith, l, more))
        ]
  ]

  -- A time below the penalty is the one that the entry has, and the entry is solved.
  seed_time-solved :
      (entry : Stats fl.Float) (b : fl.Float)
      → seed_time fl ar timeout_seconds entry ≡ some b
      → ar.less b (penalty fl ar timeout_seconds) ≡ true
      → (solved_label (label_of entry) ≡ true)
        × (time_or_zero fl ar timeout_seconds (sim_ms fl ar timeout_seconds entry) ≡ some b)
  unfolding seed_time
  seed_time-solved entry b h low =
      let (ms, timed, e) =
        >>=-some (time_or_zero fl ar timeout_seconds (sim_ms fl ar timeout_seconds entry))
          (λ ms. some (in_time fl ar timeout_seconds (label_of entry) ms).0) b h in
      elim (Bool-cases
        (solved_label (label_of entry) && ar.at_most ms (timeout_ms fl ar timeout_seconds))) [
          | inl q ↦
              let same : ms ≡ b = ground (arith, q, e) in (ground (arith, q), timed ∙ ap some same)
          | inr q ↦
              let same : penalty fl ar timeout_seconds ≡ b = ground (arith, q, e) in
              let never = ap (λ x. ar.less x (penalty fl ar timeout_seconds)) same ∙ low in
              ground (arith, irreflexive (penalty fl ar timeout_seconds), never)
        ]

  formatted : Text → Stats fl.Float → Stats fl.Float
  formatted t row = insert (codes "total_memory_formatted") (text t) row

  formatted-lookup :
      {A : Type 0} (size : Option A) (shown : A → Option Text) (row done : Stats fl.Float)
      (key : Text)
      → (size >>= (λ n. shown n >>= (λ t. some (formatted t row)))) ≡ some done
      → eq_text (codes "total_memory_formatted") key ≡ false
      → lookup key done ≡ lookup key row
  unfolding formatted
  formatted-lookup size shown row done key h other =
      let (n, _, h1) = >>=-some size (λ n. shown n >>= (λ t. some (formatted t row))) done h in
      let (t, _, h2) = >>=-some (shown n) (λ t. some (formatted t row)) done h1 in
      ap (lookup key) (sym (some-injective (formatted t row) done h2))
      ∙ lookup-insert (codes "total_memory_formatted") key (text t) row
      ∙ ap (λ b. if b then some (text t) else lookup key row) other

  put_formatted_bytes-lookup :
      (row done : Stats fl.Float) (key : Text)
      → put_formatted_bytes fl ar timeout_seconds row ≡ some done
      → eq_text (codes "total_memory_formatted") key ≡ false
      → lookup key done ≡ lookup key row
  unfolding put_formatted_bytes formatted
  put_formatted_bytes-lookup row done key h other =
      let zero_bytes = whole (pos 0) in
      formatted-lookup
        (to_int fl ar
          (or_default fl ar (figure fl ar (codes "total_memory_bytes") zero_bytes row) zero_bytes))
        (format_bytes fl) row done key h other

  -- The time of a row, and if it is listed as solved.
  unfoldable pub HasTime : fl.Float → Stats fl.Float → Type 0
  HasTime b row =
      (lookup time_key row ≡ some (real b))
      × (solved_label (label_of row) ≡ ar.less b (penalty fl ar timeout_seconds))

  put_formatted_bytes-HasTime :
      (b : fl.Float) (row done : Stats fl.Float)
      → HasTime b row
      → put_formatted_bytes fl ar timeout_seconds row ≡ some done
      → HasTime b done
  unfolding HasTime
  put_formatted_bytes-HasTime b row done (timed, solved) h = (
    put_formatted_bytes-lookup row done time_key h refl ∙ timed,
    ap (λ v. solved_label (text_in v)) (put_formatted_bytes-lookup row done (codes "result") h refl)
        ∙ solved,
  )

  -- The two ways in which the row gets its time.
  mark_row-solved :
      (entry row : Stats fl.Float) (b : fl.Float)
      → seed_time fl ar timeout_seconds entry ≡ some b
      → ar.less b (penalty fl ar timeout_seconds) ≡ true
      → mark_row fl ar timeout_seconds b entry ≡ some row
      → HasTime b row
  unfolding mark_row HasTime
  mark_row-solved entry row b h low marked =
      let (solved, timed) = seed_time-solved entry b h low in
      let kept : some (insert time_key (real b) entry) ≡ some row =
        ground (arith, marked, timed, less_at_most b (penalty fl ar timeout_seconds) low) in
      let same = sym (some-injective (insert time_key (real b) entry) row kept) in
      (
        ap (lookup time_key) same ∙ lookup-insert time_key time_key (real b) entry,
        ap (λ r. solved_label (label_of r)) same
            ∙ ap (λ v. solved_label (text_in v))
                (lookup-insert time_key (codes "result") (real b) entry)
            ∙ solved
            ∙ sym low,
      )

  mark_row-unsolved :
      (test : Text) (row : Stats fl.Float)
      → ar.at_most (penalty fl ar timeout_seconds) (penalty fl ar timeout_seconds) ≡ true
      → mark_row fl ar timeout_seconds
          (penalty fl ar timeout_seconds)
          (placeholder fl ar timeout_seconds test)
        ≡ some row
      → HasTime (penalty fl ar timeout_seconds) row
  unfolding mark_row HasTime lookup
  mark_row-unsolved test row reflexive marked =
      let unknown = insert time_key (real (penalty fl ar timeout_seconds)) (
        insert (codes "result") (text (codes "UNKNOWN"))
          (placeholder fl ar timeout_seconds test)) in
      let kept : some unknown ≡ some row = ground (arith, marked, reflexive) in
      let same = sym (some-injective unknown row kept) in
      (
        ap (lookup time_key) same,
        ap (λ r. solved_label (label_of r)) same
            ∙ sym (irreflexive (penalty fl ar timeout_seconds)),
      )

  mark_row-HasTime :
      (test : Text) (b : fl.Float) (found : Option (Stats fl.Float)) (row : Stats fl.Float)
      → ar.at_most (penalty fl ar timeout_seconds) (penalty fl ar timeout_seconds) ≡ true
      → IsFrom b found
      → mark_row fl ar timeout_seconds b (entry_or fl ar timeout_seconds test found) ≡ some row
      → HasTime b row
  unfolding IsFrom
  mark_row-HasTime test b found row reflexive (inl (none_yet, e)) marked =
      subst (λ x. HasTime x row) (sym e)
        (mark_row-unsolved test row reflexive (
          subst
            (λ x.
              mark_row fl ar timeout_seconds x (placeholder fl ar timeout_seconds test) ≡ some row)
            e
            (subst
              (λ o.
                mark_row fl ar timeout_seconds b (entry_or fl ar timeout_seconds test o) ≡ some row)
              none_yet marked)))
  mark_row-HasTime test b found row reflexive (inr (entry, kept, timed, low)) marked =
      mark_row-solved entry row b timed low (
        subst
          (λ o. mark_row fl ar timeout_seconds b (entry_or fl ar timeout_seconds test o) ≡ some row)
          kept marked)

  -- If the row for a test can be built, the test has a best contribution, the time in the row is that
  -- contribution, and the row is listed as SAT or UNSAT exactly if it is below the penalty. The floats
  -- have a < that is irreflexive and transitive and excludes >=, and the penalty is >= itself.
  pub best_row-best :
      (test : Text) (ms : List (SeedMap fl ar timeout_seconds)) (row : Stats fl.Float)
      → ar.at_most (penalty fl ar timeout_seconds) (penalty fl ar timeout_seconds) ≡ true
      → best_row fl ar timeout_seconds ms test ≡ some row
      → (c : fl.Float) × (best_contribution fl ar timeout_seconds test ms
            (penalty fl ar timeout_seconds)
          ≡ some c)
        × (lookup time_key row ≡ some (real c))
        × (solved_label (label_of row) ≡ ar.less c (penalty fl ar timeout_seconds))
  unfolding best_row HasTime IsFrom
  best_row-best test ms row reflexive h =
      let ((c, found), found_by, h1) =
        >>=-some (best_entry fl ar timeout_seconds test ms (penalty fl ar timeout_seconds, none))
          (λ best.
            mark_row fl ar timeout_seconds best.0 (entry_or fl ar timeout_seconds test best.1)
            >>= put_formatted_bytes fl ar timeout_seconds)
          row h in
      let (marked, by, h2) =
        >>=-some (mark_row fl ar timeout_seconds c (entry_or fl ar timeout_seconds test found))
          (put_formatted_bytes fl ar timeout_seconds) row h1 in
      let from =
        best_entry-IsFrom test ms (penalty fl ar timeout_seconds) c none found (inl (refl, refl))
          found_by in
      let (timed, solved) =
        put_formatted_bytes-HasTime c marked row
          (mark_row-HasTime test c found marked reflexive from by) h2 in
      (
        c,
        best_entry-same fl ar timeout_seconds irreflexive transitive test ms c found found_by,
        timed,
        solved,
      )
