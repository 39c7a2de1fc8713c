-- ===== src/Log/Outcome.antt =====
-- The result that `parse_satsolver_log` of tools/unified_parser.py gives a run.
use sst_sat.Base.{
  ◌≡◌, refl, arith, Bool, true, false, ◌||◌, Bool-cases, Option, some, none, Option-cases, ◌⊎◌, inl,
  inr, List, [], ◌∷◌, ◌++◌,
}
use sst_sat.Base.Int.{ℤ}
use sst_sat.Base.Lists.{All}
use sst_sat.Base.Dict.{lookup, insert, lookup-insert, lookup-insert_self}
use sst_sat.Python.Text.{Text, Text_eq, codes, eq_text}
use sst_sat.Python.Regex.{search_re, group_of}
use sst_sat.Log.Value.{Floats, Value, whole, real, text}
use sst_sat.Log.Sections.{Figures}
use sst_sat.Log.StatsCsv.{Row, read_rows, no_prefetch, put_some, parse_stats_csv_for_prefetch}
use sst_sat.Log.Keys.{Lacks, insert-Lacks, lookup-update}
use sst_sat.Log.Keys.Sections.{result_key, IsBeside}
use sst_sat.Log.Keys.Activities.{section_steps-IsBeside}
use sst_sat.Log.Satsolver.{
  Step, run_steps, steps_of, put_all, put_result, put_time, put_prefetch, section_steps, keep_two,
  log_steps, parse_satsolver_log, result_type, is_complete, has_sat, test_case_of, empty_result,
  time_pattern, in_ms,
}

result_type_sat :
    (content : Text)
    → result_type content ≡ codes "SAT"
    → (is_complete content ≡ true) × (has_sat content ≡ true)
unfolding result_type
result_type_sat content h = ground arith

module _ (fl : Floats) where
  put_some-Lacks :
      (key : Text) (o : Option ℤ) (d : Figures fl)
      → eq_text key result_key ≡ false
      → Lacks result_key d
      → Lacks result_key (put_some fl key o d)
  put_some-Lacks key none d h l = l
  put_some-Lacks key (some n) d h l = insert-Lacks result_key key (whole n) d h l

  parse_stats_csv_for_prefetch-Lacks :
      (rows : Option (List Row)) → Lacks result_key (parse_stats_csv_for_prefetch fl rows)
  unfolding parse_stats_csv_for_prefetch
  parse_stats_csv_for_prefetch-Lacks none = refl
  parse_stats_csv_for_prefetch-Lacks (some rows) =
      elim (Option-cases (read_rows rows no_prefetch)) [
        | inl q ↦ rw (q, parse_stats_csv_for_prefetch) refl
        | inr (p, q) ↦
            rw (q, parse_stats_csv_for_prefetch)
              (put_some-Lacks (codes "l1_prefetch_drops") p.last_drops _ refl
                (put_some-Lacks (codes "l1_prefetch_requests") p.last_requests [] refl refl))
      ]

  -- The value of the result.
  abbrev IsResult : Text → Figures fl → Type 0
  IsResult r d = lookup result_key d ≡ some (text r)

  abbrev Keeps : Text → Step fl → Type 0
  Keeps r s = (d d' : Figures fl) → IsResult r d → s d ≡ some d' → IsResult r d'

  -- The body of the `try` raised, or the result is `r`.
  abbrev Ends : Text → Figures fl × Bool → Type 0
  Ends r run = (run.1 ≡ true) ⊎ IsResult r run.0

  run_steps-Keeps :
      (r : Text) (ss : List (Step fl))
      → All (Keeps r) ss
      → (d : Figures fl) → IsResult r d
      → Ends r (run_steps fl ss d)
  unfolding run_steps
  run_steps-Keeps r [] h d l = inr l
  run_steps-Keeps r (s ∷ ss) h d l = elim (Option-cases (s d)) [
    | inl q ↦ inl (rw (q, run_steps) refl)
    | inr (d', q) ↦ rw (q, run_steps) (run_steps-Keeps r ss h.1 d' (h.0 d d' l q))
  ]

  -- A step before the result is known.
  run_steps-step :
      (r : Text) (s : Step fl) (ss : List (Step fl))
      → ((d : Figures fl) → Ends r (run_steps fl ss d))
      → (d : Figures fl) → Ends r (run_steps fl (s ∷ ss) d)
  unfolding run_steps
  run_steps-step r s ss h d = elim (Option-cases (s d)) [
    | inl q ↦ inl (rw (q, run_steps) refl)
    | inr (d', q) ↦ rw (q, run_steps) (h d')
  ]

  put_all-Keeps : (r : Text) (o : Option (Figures fl)) → IsBeside fl o → Keeps r (put_all fl o)
  put_all-Keeps r none h d d' l e = grind arith
  put_all-Keeps r (some u) h d d' l e = grind (arith, lookup-update result_key d u (h u refl), l)

  steps_of-Keeps :
      (r : Text) (os : List (Option (Figures fl)))
      → All (IsBeside fl) os
      → All (Keeps r) (steps_of fl os)
  steps_of-Keeps r [] h = tt
  steps_of-Keeps r (o ∷ os) h = (put_all-Keeps r o h.0, steps_of-Keeps r os h.1)

  put_prefetch-Keeps :
      (r : Text) (stats_csv : Text → Option (List Row)) → Keeps r (put_prefetch fl stats_csv)
  unfolding put_prefetch
  put_prefetch-Keeps r stats_csv d d' l e =
      let csv =
        parse_stats_csv_for_prefetch fl (stats_csv (test_case_of fl d ++ codes ".stats.csv")) in
      grind (
        arith,
        l,
        lookup-update result_key d csv (
            parse_stats_csv_for_prefetch-Lacks
              (stats_csv (test_case_of fl d ++ codes ".stats.csv"))),
      )

  insert-IsResult :
      (r key : Text) (v : Value fl.Float) (d : Figures fl)
      → eq_text key result_key ≡ false
      → IsResult r d
      → IsResult r (insert key v d)
  insert-IsResult r key v d h l = rw (lookup-insert key result_key v d, h) l

  put_time-Keeps : (r : Text) (content : Text) → Keeps r (put_time fl content)
  unfolding put_time
  put_time-Keeps r content d d' l e = elim (Option-cases (search_re time_pattern content)) [
    | inl q ↦ grind (arith, q)
    | inr (m, q) ↦ elim (Option-cases (fl.parse (group_of 1 m))) [
      | inl p ↦ ground (arith, p, q)
      | inr (x, p) ↦
          let t : Value fl.Float = real (in_ms fl (group_of 2 m) x) in
          grind (arith, p, q, insert-IsResult r (codes "sim_time_ms") t d refl l)
    ]
  ]

  run_steps-put_result :
      (content : Text) (ss : List (Step fl))
      → All (Keeps (result_type content)) ss
      → (d : Figures fl) → Ends (result_type content) (run_steps fl (put_result fl content ∷ ss) d)
  unfolding run_steps put_result
  run_steps-put_result content ss h d =
      let r = result_type content in
      run_steps-Keeps r ss h (insert result_key (text r) d)
        (lookup-insert_self result_key (text r) d)

  -- Once the result is set, the rest of the body leaves it as it is.
  put_result-Ends :
      (log_file_path : Text) (stats_csv : Text → Option (List Row)) (content : Text)
      → Ends
          (result_type content)
          (run_steps fl (log_steps fl log_file_path stats_csv content) (empty_result fl))
  unfolding log_steps
  put_result-Ends log_file_path stats_csv content =
      let r = result_type content in
      run_steps-step r _ _
        (run_steps-step r _ _ (
          run_steps-step r _ _ (
            run_steps-step r _ _ (λ d.
              run_steps-put_result content _
                (
                  put_time-Keeps r content,
                  (
                    put_prefetch-Keeps r stats_csv,
                    steps_of-Keeps r (section_steps fl content) (section_steps-IsBeside fl content),
                  ),
                )
                d))))
        (empty_result fl)

  keep_two-IsResult : (r : Text) (d : Figures fl) → IsResult r d → IsResult r (keep_two fl d)
  unfolding keep_two
  keep_two-IsResult r d l =
      elim (Bool-cases (eq_text r (codes "ERROR") || eq_text r (codes "UNKNOWN"))) [
        | inl q ↦ rw (l, q, keep_two) refl
        | inr q ↦ rw (l, q, keep_two) l
      ]

  -- The result of a log is the one that its text shows, whatever its name and its figures are, or it is
  -- ERROR.
  pub parse_satsolver_log-result_type :
      (log_file_path : Text) (stats_csv : Text → Option (List Row)) (content : Text)
      → (lookup result_key (parse_satsolver_log fl log_file_path stats_csv content)
          ≡ some (text (result_type content)))
        ⊎ (lookup result_key (parse_satsolver_log fl log_file_path stats_csv content)
            ≡ some (text (codes "ERROR")))
  unfolding parse_satsolver_log
  parse_satsolver_log-result_type log_file_path stats_csv content =
      let run = run_steps fl (log_steps fl log_file_path stats_csv content) (empty_result fl) in
      elim (Bool-cases run.1) [
        | inl q ↦ inr (
            rw (q, parse_satsolver_log)
              (lookup-insert_self result_key (text (codes "ERROR")) run.0))
        | inr q ↦ elim (put_result-Ends log_file_path stats_csv content) [
          | inl p ↦ ground (arith, p, q)
          | inr l ↦
              inl (rw (q, parse_satsolver_log) (keep_two-IsResult (result_type content) run.0 l))
        ]
      ]

  -- A run that is listed as SAT has a log that says that the simulation is complete and that all
  -- variables are assigned.
  pub parse_satsolver_log_sat :
      (log_file_path : Text) (stats_csv : Text → Option (List Row)) (content : Text)
      → lookup result_key (parse_satsolver_log fl log_file_path stats_csv content)
        ≡ some (text (codes "SAT"))
      → (is_complete content ≡ true) × (has_sat content ≡ true)
  parse_satsolver_log_sat log_file_path stats_csv content h =
      elim (parse_satsolver_log-result_type log_file_path stats_csv content) [
        | inl p ↦ result_type_sat content (grind (arith, p, h))
        | inr p ↦ grind (arith, p, h)
      ]
