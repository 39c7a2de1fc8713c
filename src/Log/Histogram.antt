-- ===== src/Log/Histogram.antt =====
-- `parse_histogram` of tools/unified_parser.py.
use sst_sat.Base.{ℕ, Option, some, none, List, [], ◌∷◌, ◌++◌, suc, if◌then◌else◌}
use Prim.Native.String.{String}
use sst_sat.Base.Int.{ℤ, eqb_ℤ}
use sst_sat.Base.Dict.{Dict, insert}
use sst_sat.Python.Text.{Text, Text_eq, codes, null}
use sst_sat.Python.Number.{int, str}
use sst_sat.Python.Regex.{
  Regex, Found, group, ◌⨟◌, lit, digits1, digits_or_dots, spaces, spaces1, finditer, search_re,
  group_of,
}
use sst_sat.Log.Value.{◌>>=◌, BinKey_eq, Floats, BinKey, at, range, Bin, bins, put_int}
use sst_sat.Log.Sections.{Figures, titled, spaced, in_section, section_text, find_figure}

-- \[\s*(\d+)\s*-\s*(\d+)\s*\]:\s*(\d+)\s+samples \(([\d.]+)%\)
abbrev samples_from : ℕ → Regex
samples_from n =
    spaces ⨟ group n digits1 ⨟ spaces1 ⨟ lit "samples (" ⨟ group (suc n) digits_or_dots ⨟ lit "%)"

abbrev bin_pattern : Regex
bin_pattern =
    lit "Bin ["
    ⨟ spaces
    ⨟ group 1 digits1
    ⨟ spaces
    ⨟ lit "-"
    ⨟ spaces
    ⨟ group 2 digits1
    ⨟ spaces
    ⨟ lit "]:"
    ⨟ samples_from 3

abbrev out_of_bounds_pattern : Regex
out_of_bounds_pattern = lit "Out of bounds:" ⨟ samples_from 1

-- `start if start == end else f"{start}-{end}"`
unfoldable pub bin_key : ℤ → ℤ → BinKey
bin_key start end = if eqb_ℤ start end then at start else range (str start ++ (b'-' ∷ str end))

abbrev pub Bins : Floats → Type 0
Bins fl = Dict BinKey (Bin fl.Float)

-- The key of the entry for what lies out of bounds is a text that no range is written as.
abbrev out_of_bounds : BinKey
out_of_bounds = range (codes "out_of_bounds")

unfoldable pub put_samples : (fl : Floats) → BinKey → Text → Text → Bins fl → Option (Bins fl)
put_samples fl key samples percentage d = do
  n ← int samples
  x ← fl.parse percentage
  some (insert key (record { samples = n; percentage = x }) d)

unfoldable pub put_bin : (fl : Floats) → Found → Bins fl → Option (Bins fl)
unfolding bin_key put_samples group_of
put_bin fl m d = do
  start ← int (group_of 1 m)
  end ← int (group_of 2 m)
  put_samples fl (bin_key start end) (group_of 3 m) (group_of 4 m) d

-- The loop over `re.finditer`.
unfoldable pub put_bins : (fl : Floats) → List Found → Bins fl → Option (Bins fl)
unfolding put_bin
put_bins fl [] d = some d
put_bins fl (m ∷ ms) d = elim (put_bin fl m d) [ none ↦ none | some d' ↦ put_bins fl ms d' ]

unfoldable pub put_out_of_bounds : (fl : Floats) → Text → Bins fl → Option (Bins fl)
unfolding search_re group_of put_samples
put_out_of_bounds fl t d = elim (search_re out_of_bounds_pattern t) [
  | none ↦ some d
  | some m ↦ put_samples fl out_of_bounds (group_of 1 m) (group_of 2 m) d
]

unfoldable pub parse_bins : (fl : Floats) → Text → Option (Bins fl)
unfolding finditer put_bins put_out_of_bounds
parse_bins fl t = do d ← put_bins fl (finditer bin_pattern t) []; put_out_of_bounds fl t d

abbrev pub total_pattern : Regex
total_pattern = lit "Total samples:" ⨟ spaces ⨟ group 1 digits1

unfoldable pub parse_histogram : (fl : Floats) → Text → String → Text → Option (Figures fl)
unfolding section_text find_figure parse_bins
parse_histogram fl content section_title key_prefix =
    in_section fl (titled (spaced section_title)) content (λ t. do
      out ← find_figure fl put_int (key_prefix ++ codes "_total_samples") total_pattern t []
      d ← parse_bins fl t
      some (if null d then out else insert (key_prefix ++ codes "_bins") (bins d) out))
