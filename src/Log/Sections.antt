-- ===== src/Log/Sections.antt =====
-- The sections of a satsolver log: the `parse_…` functions of tools/unified_parser.py that return a
-- dict. A missing result is a ValueError of `float`.
use sst_sat.Base.{ℕ, Option, some, none, List, [], ◌∷◌, if◌then◌else◌}
use sst_sat.Base.Int.{pos}
use sst_sat.Base.Dict.{insert}
use Prim.Native.String.{String}
use sst_sat.Python.Text.{Text, Text_eq, codes, has_text}
use sst_sat.Python.Regex.{
  Regex, star, lazy, group, ◌⨟◌, lit, digits1, digits_or_dots, any_char, newline, spaces, spaces1,
  times, search_re, group_of,
}
use sst_sat.Log.Value.{Floats, Stats, whole, put_int, put_float}
use mathlib.Core.Option

-- `={n,}`
abbrev pub bar : ℕ → Regex
bar n = times n (lit "=") ⨟ star (lit "=")

-- `\n(.*?)\n={n,}` under DOTALL
abbrev pub body : ℕ → Regex
body n = newline ⨟ group 1 (lazy any_char) ⨟ newline ⨟ bar n

-- `=+\[ title \]=+` and the body; with spaces where the pattern says `\s*`
abbrev pub titled : Regex → Regex
titled title = bar 1 ⨟ lit "[" ⨟ title ⨟ lit "]" ⨟ bar 1 ⨟ body 1

abbrev pub spaced : String → Regex
spaced title = spaces ⨟ lit title ⨟ spaces

-- Group 1 of the first match, if there is one.
unfoldable pub section_text : Regex → Text → Option Text
unfolding search_re group_of
section_text r content = Option.map (group_of 1) (search_re r content)

-- A key, and the pattern of its figure.
abbrev pub Table : Type 0
Table = List (Text × Regex)

module _ (fl : Floats) where
  abbrev pub Figures : Type 0
  Figures = Stats fl.Float

  -- A statement of a parser: what it makes of the dict.
  abbrev pub Put : Type 0
  Put = Text → Text → Figures → Option Figures

  -- `match = re.search(pattern, text)`, and `stats[key] = …match.group(1)…` where there is a match
  unfoldable pub find_figure : Put → Text → Regex → Text → Figures → Option Figures
  unfolding search_re group_of
  find_figure put key r t d = elim (search_re r t) [
    | none ↦ some d
    | some m ↦ put key (group_of 1 m) d
  ]

  -- The loop over a table of patterns.
  unfoldable pub find_figures : Put → Table → Text → Figures → Option Figures
  unfolding find_figure
  find_figures put [] t d = some d
  find_figures put ((key, r) ∷ table) t d = elim (find_figure put key r t d) [
    | none ↦ none
    | some d' ↦ find_figures put table t d'
  ]

  -- The same with 0 for a figure that is not there.
  unfoldable pub find_or_zero : Table → Text → Figures → Option Figures
  unfolding search_re group_of
  find_or_zero [] t d = some d
  find_or_zero ((key, r) ∷ table) t d = elim (search_re r t) [
    | none ↦ find_or_zero table t (insert key (whole (pos 0)) d)
    | some m ↦ elim (put_int key (group_of 1 m) d) [
      | none ↦ none
      | some d' ↦ find_or_zero table t d'
    ]
  ]

  -- Without the section the dict stays empty.
  unfoldable pub in_section : Regex → Text → (Text → Option Figures) → Option Figures
  unfolding section_text
  in_section r content parse_text = elim (section_text r content) [
    | none ↦ some []
    | some t ↦ parse_text t
  ]

-- `name\s*:\s*(\d+)`
abbrev pub counted : String → Regex
counted name = lit name ⨟ spaces ⨟ lit ":" ⨟ spaces ⨟ group 1 digits1

abbrev pub solver_patterns : Table
solver_patterns =
    (codes "decisions", counted "Decisions")
    ∷ (codes "propagations", counted "Propagations")
    ∷ (codes "conflicts", counted "Conflicts")
    ∷ (codes "learned", counted "Learned")
    ∷ (codes "removed", counted "Removed")
    ∷ (codes "db_reductions", counted "DB_Reductions")
    ∷ (codes "assigns", counted "Assigns")
    ∷ (codes "unassigns", counted "UnAssigns")
    ∷ (codes "minimized", counted "Minimized")
    ∷ (codes "restarts", counted "Restarts")
    ∷ (codes "spec_started", lit "Spec" ⨟ spaces1 ⨟ counted "Started")
    ∷ (codes "spec_finished", lit "Spec" ⨟ spaces1 ⨟ counted "Finished")
    ∷ []

abbrev solver_section : Regex
solver_section =
    lit "============================[ Solver Statistics ]============================" ⨟ body 1

unfoldable pub parse_solver_statistics : (fl : Floats) → Text → Option (Figures fl)
unfolding find_or_zero section_text
parse_solver_statistics fl content =
    in_section fl solver_section content (λ t. find_or_zero fl solver_patterns t [])

-- `name\s*(\d+)\s*bytes` and `name\s*([\d.]+)%`
abbrev sized : String → Regex
sized name = lit name ⨟ spaces ⨟ group 1 digits1 ⨟ spaces ⨟ lit "bytes"

abbrev share : String → Regex
share name = lit name ⨟ spaces ⨟ group 1 digits_or_dots ⨟ lit "%"

abbrev pub fragmentation_patterns : Table
fragmentation_patterns =
    (codes "heap_bytes", sized "Heap:")
    ∷ (codes "reserved_bytes", sized "Reserved:")
    ∷ (codes "requested_bytes", sized "Requested:")
    ∷ (codes "allocated_bytes", sized "Allocated:")
    ∷ (codes "wasted_bytes", sized "Wasted:")
    ∷ (codes "current_frag_percent", share "Current frag:")
    ∷ (codes "peak_frag_percent", share "Peak frag:")
    ∷ []

-- `float` if 'percent' is in the key, and else `int`
unfoldable pub put_bytes_or_percent : (fl : Floats) → Put fl
put_bytes_or_percent fl key t d =
    if has_text (codes "percent") key then put_float fl key t d else put_int key t d

unfoldable pub parse_clauses_fragmentation : (fl : Floats) → Text → Option (Figures fl)
unfolding find_figures section_text put_bytes_or_percent
parse_clauses_fragmentation fl content =
    in_section fl (titled (lit " Clauses Fragmentation ")) content
      (λ t. find_figures fl (put_bytes_or_percent fl) fragmentation_patterns t [])

-- `name\s*:\s*[\d.]+%\s*\((\d+) cycles\)`
abbrev cycles_of : Regex → Regex
cycles_of name =
    name
    ⨟ spaces
    ⨟ lit ":"
    ⨟ spaces
    ⨟ digits_or_dots
    ⨟ lit "%"
    ⨟ spaces
    ⨟ lit "("
    ⨟ group 1 digits1
    ⨟ lit " cycles)"

abbrev pub cycle_patterns : Table
cycle_patterns =
    (codes "propagate_cycles", cycles_of (lit "Propagate"))
    ∷ (codes "analyze_cycles", cycles_of (lit "Analyze"))
    ∷ (codes "minimize_cycles", cycles_of (lit "Minimize"))
    ∷ (codes "backtrack_cycles", cycles_of (lit "Backtrack"))
    ∷ (codes "decision_cycles", cycles_of (lit "Decision"))
    ∷ (codes "reduce_db_cycles", cycles_of (lit "Reduce DB"))
    ∷ (codes "heap_insert_cycles", cycles_of (lit "Heap" ⨟ spaces1 ⨟ lit "Insert"))
    ∷ (codes "heap_bump_cycles", cycles_of (lit "Heap" ⨟ spaces1 ⨟ lit "Bump"))
    ∷ (codes "restart_cycles", cycles_of (lit "Restart"))
    ∷ (
      codes "total_counted_cycles",
      lit "Total Counted:" ⨟ spaces ⨟ group 1 digits1 ⨟ lit " cycles",
    )
    ∷ []

unfoldable pub parse_cycle_statistics : (fl : Floats) → Text → Option (Figures fl)
unfolding find_figures section_text
parse_cycle_statistics fl content =
    in_section fl (bar 3 ⨟ lit "[ Cycle Statistics ]" ⨟ bar 3 ⨟ body 1) content
      (λ t. find_figures fl put_int cycle_patterns t [])
