-- ===== src/Log/Caches.antt =====
-- `parse_cache_statistics` and `parse_aggregate_cache_statistics` of tools/unified_parser.py.
use sst_sat.Base.{ℕ, Option, some, none, List, [], ◌∷◌, ◌++◌}
use Prim.Native.String.{String}
use sst_sat.Python.Text.{Text, codes, lower}
use sst_sat.Python.Regex.{
  Regex, group, ◌⨟◌, lit, digits1, digits_or_dots, newline, spaces, search_re, group_of,
}
use sst_sat.Log.Value.{Floats, put_int, put_float}
use sst_sat.Log.Sections.{Figures, Put, bar, body, in_section, section_text}

-- A key, the group of a match that has its figure, and how it is read.
abbrev pub Column : Floats → Type 0
Column fl = Text × (ℕ × Put fl)

-- The assignments under `if match:`, in their order.
abbrev pub put_columns :
    (fl : Floats) → List (Column fl) → (ℕ → Text) → Figures fl → Option (Figures fl)
put_columns fl [] groups d = some d
put_columns fl ((key, (n, put)) ∷ columns) groups d = elim (put key (groups n) d) [
  | none ↦ none
  | some d' ↦ put_columns fl columns groups d'
]

-- `match = re.search(r, t)` and the assignments
unfoldable pub find_columns :
    (fl : Floats) → Regex → List (Column fl) → Text → Figures fl → Option (Figures fl)
unfolding search_re group_of
find_columns fl r columns t d = elim (search_re r t) [
  | none ↦ some d
  | some m ↦ put_columns fl columns (λ n. group_of n m) d
]

-- `name\s*:\s*(\d+) hits,\s*(\d+) misses,\s*(\d+) total,\s*([\d.]+)% miss rate`
abbrev pub hits_of : String → Regex
hits_of name =
    lit name
    ⨟ spaces
    ⨟ lit ":"
    ⨟ spaces
    ⨟ group 1 digits1
    ⨟ lit " hits,"
    ⨟ spaces
    ⨟ group 2 digits1
    ⨟ lit " misses,"
    ⨟ spaces
    ⨟ group 3 digits1
    ⨟ lit " total,"
    ⨟ spaces
    ⨟ group 4 digits_or_dots
    ⨟ lit "% miss rate"

abbrev pub components : List String
components = "Heap" ∷ "Variables" ∷ "Watches" ∷ "Clauses" ∷ "VarActivity" ∷ []

abbrev pub total_columns : (fl : Floats) → Text → List (Column fl)
total_columns fl prefix =
    (prefix ++ codes "_total_requests", (3, put_int))
    ∷ (prefix ++ codes "_total_miss_rate", (4, put_float fl))
    ∷ (prefix ++ codes "_total_misses", (2, put_int))
    ∷ []

abbrev pub component_columns : (fl : Floats) → Text → List (Column fl)
component_columns fl prefix =
    (prefix ++ codes "_total", (3, put_int))
    ∷ (prefix ++ codes "_miss_rate", (4, put_float fl))
    ∷ (prefix ++ codes "_hits", (1, put_int))
    ∷ (prefix ++ codes "_misses", (2, put_int))
    ∷ []

-- `for component in components`
unfoldable pub find_components :
    (fl : Floats) → Text → List String → Text → Figures fl → Option (Figures fl)
unfolding find_columns lower
find_components fl prefix [] t d = some d
find_components fl prefix (c ∷ cs) t d =
    let columns = component_columns fl (prefix ++ (codes "_" ++ lower (codes c))) in
    elim (find_columns fl (hits_of c) columns t d) [
      | none ↦ none
      | some d' ↦ find_components fl prefix cs t d'
    ]

abbrev cache_section : String → Regex
cache_section level =
    bar 3 ⨟ spaces ⨟ lit level ⨟ lit " Cache Profiler Statistics" ⨟ spaces ⨟ bar 3 ⨟ body 3

unfoldable pub parse_cache_statistics : (fl : Floats) → Text → String → Option (Figures fl)
unfolding find_components find_columns section_text lower
parse_cache_statistics fl content level =
    let prefix = lower (codes level) in
    in_section fl (cache_section level) content (λ t.
      elim (find_columns fl (hits_of "TOTAL") (total_columns fl prefix) t []) [
        | none ↦ none
        | some d ↦ find_components fl prefix components t d
      ])

unfoldable pub parse_l1_cache_statistics : (fl : Floats) → Text → Option (Figures fl)
unfolding parse_cache_statistics
parse_l1_cache_statistics fl content = parse_cache_statistics fl content "L1"

-- `level Cache Statistics:\s*\n` and the three lines
abbrev pub level_pattern : String → Regex
level_pattern level =
    lit level
    ⨟ lit " Cache Statistics:"
    ⨟ spaces
    ⨟ newline
    ⨟ spaces
    ⨟ lit "Cache Hits:"
    ⨟ spaces
    ⨟ group 1 digits1
    ⨟ spaces
    ⨟ newline
    ⨟ spaces
    ⨟ lit "Cache Misses:"
    ⨟ spaces
    ⨟ group 2 digits1
    ⨟ spaces
    ⨟ newline
    ⨟ spaces
    ⨟ lit "Total Requests:"
    ⨟ spaces
    ⨟ group 3 digits1

abbrev pub level_columns : (fl : Floats) → Text → List (Column fl)
level_columns fl prefix =
    (prefix ++ codes "_hits", (1, put_int))
    ∷ (prefix ++ codes "_misses", (2, put_int))
    ∷ (prefix ++ codes "_total_requests", (3, put_int))
    ∷ []

unfoldable pub find_levels : (fl : Floats) → List String → Text → Figures fl → Option (Figures fl)
unfolding find_columns lower
find_levels fl [] t d = some d
find_levels fl (level ∷ levels) t d =
    let columns = level_columns fl (codes "agg_" ++ lower (codes level)) in
    elim (find_columns fl (level_pattern level) columns t d) [
      | none ↦ none
      | some d' ↦ find_levels fl levels t d'
    ]

unfoldable pub parse_aggregate_cache_statistics : (fl : Floats) → Text → Option (Figures fl)
unfolding find_levels section_text
parse_aggregate_cache_statistics fl content =
    in_section fl (bar 4 ⨟ lit "[ Cache Statistics ]" ⨟ bar 4 ⨟ body 4) content
      (λ t. find_levels fl ("L1" ∷ "L2" ∷ "L3" ∷ []) t [])
