-- ===== src/Log/Activities.antt =====
-- The sections of a satsolver log on propagation, prefetching, learning and the coprocessor: functions
-- of tools/unified_parser.py.
use sst_sat.Base.{ℕ, Bool, ◌&&◌, ◌||◌, not, Option, some, none, List, [], ◌∷◌, ◌++◌, leb}
use Prim.Native.String.{String}
use sst_sat.Python.Text.{Text, Text_eq, codes, lower, strip, strip_char, splitlines}
use sst_sat.Python.Regex.{
  Regex, one, star, lazy, alt, text_end, last_end, group, ◌⨟◌, lit, plus, digits1, digits_or_dots,
  any_char, any_but_newline, newline, spaces, is_word, Found, re_match, re_sub, group_of,
}
use sst_sat.Log.Value.{◌>>=◌, Floats, put_int, put_float}
use sst_sat.Log.Sections.{
  Figures, Table, bar, titled, spaced, in_section, section_text, find_figure, find_figures, counted,
}
use sst_sat.Log.Caches.{find_columns, Column}

-- ^\s*(.+?)\s*:\s*([\d.]+)%\s*\((\d+)\s*cycles\)\s*$, on one line
abbrev pub activity_pattern : Regex
activity_pattern =
    spaces
    ⨟ group 1 (any_but_newline ⨟ lazy any_but_newline)
    ⨟ spaces
    ⨟ lit ":"
    ⨟ spaces
    ⨟ group 2 digits_or_dots
    ⨟ lit "%"
    ⨟ spaces
    ⨟ lit "("
    ⨟ group 3 digits1
    ⨟ spaces
    ⨟ lit "cycles)"
    ⨟ spaces
    ⨟ last_end

-- [a-z0-9]
abbrev is_key_char : ℕ → Bool
is_key_char c = (leb b'a' c && leb c b'z') || (leb b'0' c && leb c b'9')

-- `'prop_' + …`: the label in lower case, with an underscore for what else it has.
unfoldable pub key_base : Text → Text
unfolding lower strip strip_char re_sub
key_base label =
    codes "prop_"
    ++ strip_char b'_'
        (re_sub (plus (one (λ c. not (is_key_char c)))) (codes "_") (lower (strip label)))

-- The lines of the section: a figure that is no number ends the line, and what the line put
-- before it stays.
unfoldable pub put_activity : (fl : Floats) → Found → Figures fl → Figures fl
unfolding group_of key_base
put_activity fl m d =
    let base = key_base (group_of 1 m) in
    elim (put_float fl (base ++ codes "_pct") (group_of 2 m) d) [
      | none ↦ d
      | some d1 ↦ elim (put_int (base ++ codes "_cycles") (group_of 3 m) d1) [
        | none ↦ d1
        | some d2 ↦ d2
      ]
    ]

unfoldable pub put_activities : (fl : Floats) → List Text → Figures fl → Figures fl
unfolding re_match put_activity
put_activities fl [] d = d
put_activities fl (line ∷ ls) d = elim (re_match activity_pattern line) [
  | none ↦ put_activities fl ls d
  | some m ↦ put_activities fl ls (put_activity fl m d)
]

unfoldable pub parse_propagation_detail_statistics : (fl : Floats) → Text → Option (Figures fl)
unfolding put_activities section_text splitlines
parse_propagation_detail_statistics fl content =
    in_section fl (titled (spaced "Propagation Detail Statistics")) content
      (λ t. some (put_activities fl (splitlines t) []))

-- DirectedPrefetcher Statistics:\n(.*?)(?:\n={3,}|\n\[{3,}|\Z)
abbrev prefetcher_section : Regex
prefetcher_section =
    lit "DirectedPrefetcher Statistics:"
    ⨟ newline
    ⨟ group 1 (lazy any_char)
    ⨟ alt (newline ⨟ bar 3) (alt (newline ⨟ lit "[[[" ⨟ star (lit "[")) text_end)

abbrev pub prefetcher_patterns : Table
prefetcher_patterns =
    (codes "prefetches_issued", lit "Prefetches issued:" ⨟ spaces ⨟ group 1 digits1)
    ∷ (codes "prefetches_used", lit "Prefetches used:" ⨟ spaces ⨟ group 1 digits1)
    ∷ (
      codes "prefetches_unused",
      lit "Prefetches unused" ⨟ lazy any_but_newline ⨟ lit ":" ⨟ spaces ⨟ group 1 digits1,
    )
    ∷ []

abbrev pub accuracy_pattern : Regex
accuracy_pattern = lit "Prefetch accuracy:" ⨟ spaces ⨟ group 1 digits_or_dots ⨟ lit "%"

unfoldable pub parse_directed_prefetcher_statistics : (fl : Floats) → Text → Option (Figures fl)
unfolding find_figures find_figure section_text
parse_directed_prefetcher_statistics fl content = in_section fl prefetcher_section content (λ t. do
  stats ← find_figures fl put_int prefetcher_patterns t []
  find_figure fl (put_float fl) (codes "prefetch_accuracy") accuracy_pattern t stats)

abbrev pub learning_int_patterns : Table
learning_int_patterns =
    (codes "total_learnt_clause_length", counted "Total Learnt Clause Length")
    ∷ (codes "unit_learnt_clauses", counted "Unit Learnt Clauses")
    ∷ []

-- `name\s*:\s*([\d.]+)`
abbrev averaged : String → Regex
averaged name = lit name ⨟ spaces ⨟ lit ":" ⨟ spaces ⨟ group 1 digits_or_dots

abbrev pub learning_float_patterns : Table
learning_float_patterns =
    (codes "avg_learnt_clause_length", averaged "Avg Learnt Clause Length")
    ∷ (codes "avg_lbd", averaged "Avg LBD")
    ∷ (codes "avg_backtrack_level", averaged "Avg Backtrack Level")
    ∷ []

unfoldable pub parse_conflict_learning_statistics : (fl : Floats) → Text → Option (Figures fl)
unfolding find_figures section_text
parse_conflict_learning_statistics fl content =
    in_section fl (titled (spaced "Conflict Learning Statistics")) content (λ t. do
      stats ← find_figures fl put_int learning_int_patterns t []
      find_figures fl (put_float fl) learning_float_patterns t stats)

abbrev pub access_patterns : Table
access_patterns =
    (codes "twl_naive_accesses", counted "Full Occurrence List (naive)")
    ∷ (codes "twl_watchers_traversed", counted "2WL Watchers Traversed")
    ∷ []

abbrev pub reduced_pattern : Regex
reduced_pattern =
    counted "Reduced Clause Accesses" ⨟ spaces ⨟ lit "(" ⨟ group 2 digits_or_dots ⨟ lit "%)"

abbrev pub reduced_columns : (fl : Floats) → List (Column fl)
reduced_columns fl =
    (codes "twl_reduced_accesses", (1, put_int))
    ∷ (codes "twl_reduction_pct", (2, put_float fl))
    ∷ []

unfoldable pub parse_reduced_clause_access_statistics : (fl : Floats) → Text → Option (Figures fl)
unfolding find_figures find_columns section_text
parse_reduced_clause_access_statistics fl content =
    in_section fl (titled (spaced "Reduced Clause Access Statistics")) content (λ t. do
      stats ← find_figures fl put_int access_patterns t []
      find_columns fl reduced_pattern (reduced_columns fl) t stats)

-- \s*(\w+)\s*=\s*(\d+)
abbrev pub raw_pattern : Regex
raw_pattern = spaces ⨟ group 1 (plus (one is_word)) ⨟ spaces ⨟ lit "=" ⨟ spaces ⨟ group 2 digits1

unfoldable pub put_raw_lines : (fl : Floats) → List Text → Figures fl → Option (Figures fl)
unfolding re_match group_of
put_raw_lines fl [] d = some d
put_raw_lines fl (line ∷ ls) d = elim (re_match raw_pattern line) [
  | none ↦ put_raw_lines fl ls d
  | some m ↦ elim (put_int (codes "coproc_" ++ group_of 1 m) (group_of 2 m) d) [
    | none ↦ none
    | some d' ↦ put_raw_lines fl ls d'
  ]
]

unfoldable pub parse_coprocessor_raw_statistics : (fl : Floats) → Text → Option (Figures fl)
unfolding put_raw_lines section_text splitlines
parse_coprocessor_raw_statistics fl content =
    in_section fl (titled (lit " Coprocessor Raw Statistics ")) content
      (λ t. put_raw_lines fl (splitlines t) [])
