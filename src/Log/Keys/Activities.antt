-- ===== src/Log/Keys/Activities.antt =====
-- The sections on propagation, prefetching, learning and the coprocessor have no figure with the key of
-- the run's result, so that none of all the sections has one.
use sst_sat.Base.{◌≡◌, refl, arith, some, Option-cases, inl, inr, List, [], ◌∷◌, ◌++◌}
use sst_sat.Base.Lists.{All}
use sst_sat.Python.Text.{Text, codes, lower, splitlines}
use sst_sat.Python.Number.{int}
use sst_sat.Python.Regex.{Found, re_match, group_of}
use sst_sat.Log.Value.{Floats, real, whole, put_int, put_float}
use sst_sat.Log.Sections.{Figures, find_figures}
use sst_sat.Log.Caches.{parse_l1_cache_statistics}
use sst_sat.Log.Activities.{
  key_base, activity_pattern, raw_pattern, prefetcher_patterns, learning_int_patterns,
  learning_float_patterns, access_patterns, reduced_columns, accuracy_pattern, reduced_pattern,
  put_activity, put_activities, put_raw_lines, parse_propagation_detail_statistics,
  parse_directed_prefetcher_statistics, parse_conflict_learning_statistics,
  parse_reduced_clause_access_statistics, parse_coprocessor_raw_statistics,
}
use sst_sat.Log.Satsolver.{section_steps}
use sst_sat.Log.Keys.{
  Lacks, insert-Lacks, put_int-Tidy, put_float-Tidy, find_figure-Lacks, find_figures-Lacks,
  find_columns-Lacks,
}
use sst_sat.Log.Keys.Sections.{
  result_key, IsBeside, in_section-IsBeside, parse_solver_statistics-IsBeside,
  parse_clauses_fragmentation-IsBeside, parse_cycle_statistics-IsBeside,
  parse_cache_statistics-IsBeside, parse_aggregate_cache_statistics-IsBeside,
  parse_histogram-IsBeside,
}

module _ (fl : Floats) where
  put_activity-Lacks :
      (m : Found) (d : Figures fl) → Lacks result_key d → Lacks result_key (put_activity fl m d)
  unfolding put_activity key_base
  put_activity-Lacks m d l = elim (Option-cases (fl.parse (group_of 2 m))) [
    | inl q ↦ rw (q, put_activity) l
    | inr (x, q) ↦ elim (Option-cases (int (group_of 3 m))) [
      | inl p ↦ rw (q, p, put_activity) (insert-Lacks result_key _ (real x) d refl l)
      | inr (n, p) ↦
          rw (q, p, put_activity)
            (insert-Lacks result_key _ (whole n) _ refl
              (insert-Lacks result_key _ (real x) d refl l))
    ]
  ]

  put_activities-Lacks :
      (ls : List Text) (d : Figures fl)
      → Lacks result_key d
      → Lacks result_key (put_activities fl ls d)
  unfolding put_activities
  put_activities-Lacks [] d l = l
  put_activities-Lacks (line ∷ ls) d l = elim (Option-cases (re_match activity_pattern line)) [
    | inl q ↦ rw q (put_activities-Lacks ls d l)
    | inr (m, q) ↦ rw q (put_activities-Lacks ls _ (put_activity-Lacks m d l))
  ]

  parse_propagation_detail_statistics-IsBeside :
      (content : Text) → IsBeside fl (parse_propagation_detail_statistics fl content)
  unfolding parse_propagation_detail_statistics
  parse_propagation_detail_statistics-IsBeside content =
      in_section-IsBeside fl _ content _
        (λ t d e. grind (arith, put_activities-Lacks (splitlines t) [] refl))

  put_raw_lines-Lacks :
      (ls : List Text) (d d' : Figures fl)
      → Lacks result_key d
      → put_raw_lines fl ls d ≡ some d'
      → Lacks result_key d'
  unfolding put_raw_lines
  put_raw_lines-Lacks [] d d' l e = grind arith
  put_raw_lines-Lacks (line ∷ ls) d d' l e = elim (Option-cases (re_match raw_pattern line)) [
    | inl q ↦ put_raw_lines-Lacks ls d d' l (ground (arith, q))
    | inr (m, q) ↦
        elim (Option-cases (put_int (codes "coproc_" ++ group_of 1 m) (group_of 2 m) d)) [
          | inl p ↦ ground (arith, q, p)
          | inr (d1, p) ↦
              put_raw_lines-Lacks ls d1 d'
                (put_int-Tidy fl result_key _ (group_of 2 m) d d1 refl l p) (ground (arith, q, p))
        ]
  ]

  parse_coprocessor_raw_statistics-IsBeside :
      (content : Text) → IsBeside fl (parse_coprocessor_raw_statistics fl content)
  unfolding parse_coprocessor_raw_statistics
  parse_coprocessor_raw_statistics-IsBeside content =
      in_section-IsBeside fl _ content _ (λ t d e. put_raw_lines-Lacks (splitlines t) [] d refl e)

  parse_directed_prefetcher_statistics-IsBeside :
      (content : Text) → IsBeside fl (parse_directed_prefetcher_statistics fl content)
  unfolding parse_directed_prefetcher_statistics
  parse_directed_prefetcher_statistics-IsBeside content =
      in_section-IsBeside fl _ content _ (λ t d e.
        elim (Option-cases (find_figures fl put_int prefetcher_patterns t [])) [
          | inl q ↦ ground (arith, q)
          | inr (stats, q) ↦
              find_figure-Lacks fl result_key (put_float fl) (put_float-Tidy fl result_key)
                (codes "prefetch_accuracy") accuracy_pattern t stats d refl
                (find_figures-Lacks fl result_key put_int (put_int-Tidy fl result_key)
                  prefetcher_patterns t [] stats refl refl q)
                (ground (arith, q))
        ])

  parse_conflict_learning_statistics-IsBeside :
      (content : Text) → IsBeside fl (parse_conflict_learning_statistics fl content)
  unfolding parse_conflict_learning_statistics
  parse_conflict_learning_statistics-IsBeside content = in_section-IsBeside fl _ content _ (λ t d e.
      elim (Option-cases (find_figures fl put_int learning_int_patterns t [])) [
        | inl q ↦ ground (arith, q)
        | inr (stats, q) ↦
            find_figures-Lacks fl result_key (put_float fl) (put_float-Tidy fl result_key)
              learning_float_patterns t stats d refl
              (find_figures-Lacks fl result_key put_int (put_int-Tidy fl result_key)
                learning_int_patterns t [] stats refl refl q)
              (ground (arith, q))
      ])

  parse_reduced_clause_access_statistics-IsBeside :
      (content : Text) → IsBeside fl (parse_reduced_clause_access_statistics fl content)
  unfolding parse_reduced_clause_access_statistics
  parse_reduced_clause_access_statistics-IsBeside content =
      in_section-IsBeside fl _ content _ (λ t d e.
        elim (Option-cases (find_figures fl put_int access_patterns t [])) [
          | inl q ↦ ground (arith, q)
          | inr (stats, q) ↦
              find_columns-Lacks fl result_key reduced_pattern (reduced_columns fl)
                (put_int-Tidy fl result_key, (put_float-Tidy fl result_key, tt)) refl t stats d
                (find_figures-Lacks fl result_key put_int (put_int-Tidy fl result_key)
                  access_patterns t [] stats refl refl q)
                (ground (arith, q))
        ])

  pub section_steps-IsBeside : (content : Text) → All (IsBeside fl) (section_steps fl content)
  unfolding section_steps parse_l1_cache_statistics lower
  section_steps-IsBeside content = (
    parse_solver_statistics-IsBeside fl content,
    (
      parse_cache_statistics-IsBeside fl content "L1" (λ c. refl) refl,
      (
        parse_cache_statistics-IsBeside fl content "L2" (λ c. refl) refl,
        (
          parse_aggregate_cache_statistics-IsBeside fl content,
          (
            parse_clauses_fragmentation-IsBeside fl content,
            (
              parse_cycle_statistics-IsBeside fl content,
              (
                parse_histogram-IsBeside fl content _ _ refl refl,
                (
                  parse_histogram-IsBeside fl content _ _ refl refl,
                  (
                    parse_histogram-IsBeside fl content _ _ refl refl,
                    (
                      parse_histogram-IsBeside fl content _ _ refl refl,
                      (
                        parse_propagation_detail_statistics-IsBeside content,
                        (
                          parse_directed_prefetcher_statistics-IsBeside content,
                          (
                            parse_reduced_clause_access_statistics-IsBeside content,
                            (
                              parse_conflict_learning_statistics-IsBeside content,
                              (parse_coprocessor_raw_statistics-IsBeside content, tt),
                            ),
                          ),
                        ),
                      ),
                    ),
                  ),
                ),
              ),
            ),
          ),
        ),
      ),
    ),
  )
