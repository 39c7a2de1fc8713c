-- ===== src/Log/Keys/Sections.antt =====
-- No section of a log has a figure with the key of the run's result.
use sst_sat.Base.{
  ◌≡◌, refl, arith, false, true, Option, some, Option-cases, Bool-cases, inl, inr, List, [], ◌∷◌,
  ◌++◌,
}
use Prim.Native.String.{String}
use sst_sat.Python.Text.{Text, Text_eq, codes, eq_text, null, lower}
use sst_sat.Python.Regex.{Regex}
use sst_sat.Log.Value.{Floats, put_int}
use sst_sat.Log.Sections.{
  Figures, in_section, section_text, find_figure, solver_patterns, fragmentation_patterns,
  cycle_patterns, parse_solver_statistics, parse_clauses_fragmentation, parse_cycle_statistics,
  put_bytes_or_percent,
}
use sst_sat.Log.Caches.{
  hits_of, level_pattern, components, find_columns, find_components, find_levels, component_columns,
  total_columns, level_columns, parse_cache_statistics, parse_aggregate_cache_statistics,
}
use sst_sat.Log.Histogram.{total_pattern, parse_histogram, parse_bins}
use sst_sat.Log.Keys.{
  Lacks, Tidy, insert-Lacks, put_int-Tidy, put_float-Tidy, has_no_key, find_figure-Lacks,
  find_figures-Lacks, find_or_zero-Lacks, find_columns-Lacks,
}

abbrev pub result_key : Text
result_key = codes "result"

-- If a parser returns, it returns a dict without the key of the result.
abbrev pub IsBeside : (fl : Floats) → Option (Figures fl) → Type 0
IsBeside fl o = (d : Figures fl) → o ≡ some d → Lacks result_key d

pub in_section-IsBeside :
    (fl : Floats) (r : Regex) (content : Text) (parse_text : Text → Option (Figures fl))
    → ((t : Text) → IsBeside fl (parse_text t))
    → IsBeside fl (in_section fl r content parse_text)
unfolding in_section
in_section-IsBeside fl r content parse_text h d e = elim (Option-cases (section_text r content)) [
  | inl q ↦ grind (arith, q)
  | inr (t, q) ↦ h t d (grind (arith, q))
]

pub parse_solver_statistics-IsBeside :
    (fl : Floats) (content : Text) → IsBeside fl (parse_solver_statistics fl content)
unfolding parse_solver_statistics
parse_solver_statistics-IsBeside fl content =
    in_section-IsBeside fl _ content _
      (λ t d e. find_or_zero-Lacks fl result_key solver_patterns t [] d refl refl e)

put_bytes_or_percent-Tidy : (fl : Floats) → Tidy fl result_key (put_bytes_or_percent fl)
unfolding put_bytes_or_percent
put_bytes_or_percent-Tidy fl key t d d' h l e =
    grind (arith, put_int-Tidy fl result_key key t d d', put_float-Tidy fl result_key key t d d')

pub parse_clauses_fragmentation-IsBeside :
    (fl : Floats) (content : Text) → IsBeside fl (parse_clauses_fragmentation fl content)
unfolding parse_clauses_fragmentation
parse_clauses_fragmentation-IsBeside fl content = in_section-IsBeside fl _ content _ (λ t d e.
    find_figures-Lacks fl result_key _ (put_bytes_or_percent-Tidy fl) fragmentation_patterns t [] d
      refl refl e)

pub parse_cycle_statistics-IsBeside :
    (fl : Floats) (content : Text) → IsBeside fl (parse_cycle_statistics fl content)
unfolding parse_cycle_statistics
parse_cycle_statistics-IsBeside fl content = in_section-IsBeside fl _ content _ (λ t d e.
    find_figures-Lacks fl result_key _ (put_int-Tidy fl result_key) cycle_patterns t [] d refl refl
      e)

-- The columns of a component of a cache.
abbrev pub CacheKeys : Floats → Text → Type 0
CacheKeys fl prefix =
    (c : String)
    → has_no_key result_key (component_columns fl (prefix ++ (codes "_" ++ lower (codes c)))) ≡ true

find_components-Lacks :
    (fl : Floats) (prefix : Text)
    → CacheKeys fl prefix
    → (cs : List String) (t : Text) (d d' : Figures fl) → Lacks result_key d
    → find_components fl prefix cs t d ≡ some d'
    → Lacks result_key d'
unfolding find_components
find_components-Lacks fl prefix h [] t d d' l e = grind arith
find_components-Lacks fl prefix h (c ∷ cs) t d d' l e =
    elim (Option-cases (
      find_columns fl (hits_of c) (component_columns fl (prefix ++ (codes "_" ++ lower (codes c))))
        t d)) [
          | inl q ↦ ground (arith, q)
          | inr (d1, q) ↦
              find_components-Lacks fl prefix h cs t d1 d'
                (find_columns-Lacks fl result_key (hits_of c)
                  (component_columns fl (prefix ++ (codes "_" ++ lower (codes c))))
                  (
                    put_int-Tidy fl result_key,
                    (
                      put_float-Tidy fl result_key,
                      (put_int-Tidy fl result_key, (put_int-Tidy fl result_key, tt)),
                    ),
                  )
                  (h c) t d d1 l q)
                (ground (arith, q))
        ]

pub parse_cache_statistics-IsBeside :
    (fl : Floats) (content : Text) (level : String)
    → CacheKeys fl (lower (codes level))
    → has_no_key result_key (total_columns fl (lower (codes level))) ≡ true
    → IsBeside fl (parse_cache_statistics fl content level)
unfolding parse_cache_statistics
parse_cache_statistics-IsBeside fl content level h g = in_section-IsBeside fl _ content _ (λ t d e.
    elim (Option-cases
      (find_columns fl (hits_of "TOTAL") (total_columns fl (lower (codes level))) t [])) [
        | inl q ↦ ground (arith, q)
        | inr (d1, q) ↦
            find_components-Lacks fl (lower (codes level)) h components t d1 d
              (find_columns-Lacks fl result_key (hits_of "TOTAL")
                (total_columns fl (lower (codes level)))
                (
                  put_int-Tidy fl result_key,
                  (put_float-Tidy fl result_key, (put_int-Tidy fl result_key, tt)),
                )
                g t [] d1 refl q)
              (ground (arith, q))
      ])

find_levels-Lacks :
    (fl : Floats) (levels : List String) (t : Text) (d d' : Figures fl)
    → Lacks result_key d
    → find_levels fl levels t d ≡ some d'
    → Lacks result_key d'
unfolding find_levels
find_levels-Lacks fl [] t d d' l e = grind arith
find_levels-Lacks fl (level ∷ levels) t d d' l e =
    elim (Option-cases (
      find_columns fl (level_pattern level) (level_columns fl (codes "agg_" ++ lower (codes level)))
        t d)) [
          | inl q ↦ ground (arith, q)
          | inr (d1, q) ↦
              find_levels-Lacks fl levels t d1 d'
                (find_columns-Lacks fl result_key (level_pattern level)
                  (level_columns fl (codes "agg_" ++ lower (codes level)))
                  (
                    put_int-Tidy fl result_key,
                    (put_int-Tidy fl result_key, (put_int-Tidy fl result_key, tt)),
                  )
                  refl t d d1 l q)
                (ground (arith, q))
        ]

pub parse_aggregate_cache_statistics-IsBeside :
    (fl : Floats) (content : Text) → IsBeside fl (parse_aggregate_cache_statistics fl content)
unfolding parse_aggregate_cache_statistics
parse_aggregate_cache_statistics-IsBeside fl content =
    in_section-IsBeside fl _ content _
      (λ t d e. find_levels-Lacks fl ("L1" ∷ "L2" ∷ "L3" ∷ []) t [] d refl e)

pub parse_histogram-IsBeside :
    (fl : Floats) (content : Text) (section_title : String) (key_prefix : Text)
    → eq_text (key_prefix ++ codes "_total_samples") result_key ≡ false
    → eq_text (key_prefix ++ codes "_bins") result_key ≡ false
    → IsBeside fl (parse_histogram fl content section_title key_prefix)
unfolding parse_histogram
parse_histogram-IsBeside fl content section_title key_prefix h g =
    in_section-IsBeside fl _ content _ (λ t d e.
      elim (Option-cases
        (find_figure fl put_int (key_prefix ++ codes "_total_samples") total_pattern t [])) [
          | inl q ↦ ground (arith, q)
          | inr (out, q) ↦ elim (Option-cases (parse_bins fl t)) [
            | inl p ↦ ground (arith, p, q)
            | inr (bs, p) ↦ elim (Bool-cases (null bs)) [
              | inl n ↦ grind (
                arith,
                p,
                q,
                n,
                find_figure-Lacks fl result_key put_int (put_int-Tidy fl result_key)
                    (key_prefix ++ codes "_total_samples") total_pattern t [] out h refl q,
              )
              | inr n ↦ grind (
                arith,
                p,
                q,
                n,
                insert-Lacks,
                find_figure-Lacks fl result_key put_int (put_int-Tidy fl result_key)
                    (key_prefix ++ codes "_total_samples") total_pattern t [] out h refl q,
              )
            ]
          ]
        ])
