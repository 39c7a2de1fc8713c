-- ===== src/Tools/CacheStats/LastRow.antt =====
-- The value of a statistic is that of the last row that has it.
use sst_sat.Base.{
  ◌≡◌, refl, ap, ◌∙◌, arith, true, ◌&&◌, Option, some, none, List, [], ◌∷◌, if◌then◌else◌,
}
use sst_sat.Base.Dict.{lookup, insert, has_key, lookup-insert}
use sst_sat.Python.Text.{Text, Text_eq, eq_text, eq_text_iff}
use sst_sat.Tools.CacheStats.{
  CacheStats, no_statistics, columns, is_counted, statistics_of, put_row, put_rows, statistic_in,
}

abbrev pub or_value : Option Text → Option Text → Option Text
or_value none u = u
or_value (some t) u = some t

abbrev pub value_of : Text → Text → Option (Text × (Text × Text)) → Option Text
value_of component statistic none = none
value_of component statistic (some (c, (s, v))) =
    if eq_text c component && eq_text s statistic then some v else none

unfoldable pub last_value : Text → Text → List (List Text) → Option Text
unfolding columns
last_value component statistic [] = none
last_value component statistic (row ∷ rows) =
    or_value (last_value component statistic rows) (value_of component statistic (columns row))

or_value_assoc : (a b c : Option Text) → or_value a (or_value b c) ≡ or_value (or_value a b) c
or_value_assoc none b c = refl
or_value_assoc (some t) b c = refl

has_key-put_row :
    (k : Text) (o : Option (Text × (Text × Text))) (stats : CacheStats)
    → has_key k stats ≡ true
    → has_key k (put_row o stats) ≡ true
unfolding put_row has_key
has_key-put_row k none stats h = h
has_key-put_row k (some (c, (s, v))) stats h =
    ground (arith, h, lookup-insert c k (insert s v (statistics_of c stats)) stats)

statistic_in-put_row :
    (k n : Text) (o : Option (Text × (Text × Text))) (stats : CacheStats)
    → has_key k stats ≡ true
    → is_counted n ≡ true
    → statistic_in k n (put_row o stats) ≡ or_value (value_of k n o) (statistic_in k n stats)
unfolding put_row
statistic_in-put_row k n none stats h c = refl
statistic_in-put_row k n (some (d, (s, v))) stats h c = ground (
  arith,
  h,
  c,
  eq_text_iff d k,
  eq_text_iff s n,
  lookup-insert d k (insert s v (statistics_of d stats)) stats,
  lookup-insert s n v (statistics_of d stats),
)

statistic_in-put_rows :
    (k n : Text) (rows : List (List Text)) (stats : CacheStats)
    → has_key k stats ≡ true
    → is_counted n ≡ true
    → statistic_in k n (put_rows rows stats)
      ≡ or_value (last_value k n rows) (statistic_in k n stats)
unfolding put_rows last_value
statistic_in-put_rows k n [] stats h c = refl
statistic_in-put_rows k n (row ∷ rows) stats h c =
    statistic_in-put_rows k n rows (put_row (columns row) stats)
      (has_key-put_row k (columns row) stats h) c
    ∙ ap (or_value (last_value k n rows)) (statistic_in-put_row k n (columns row) stats h c)
    ∙ or_value_assoc (last_value k n rows) (value_of k n (columns row)) (statistic_in k n stats)

or_value-none : (t : Option Text) → or_value t none ≡ t
or_value-none none = refl
or_value-none (some t) = refl

no_statistic : (component statistic : Text) → statistic_in component statistic no_statistics ≡ none
unfolding lookup
no_statistic component statistic = ground arith

-- The value of the hits or of the misses of a cache is that of the last row that names the cache and
-- the statistic and has at least seven columns, and there is none if no row does.
pub put_rows-last_value :
    (component statistic : Text) (rows : List (List Text))
    → has_key component no_statistics ≡ true
    → is_counted statistic ≡ true
    → statistic_in component statistic (put_rows rows no_statistics)
      ≡ last_value component statistic rows
put_rows-last_value component statistic rows h c =
    statistic_in-put_rows component statistic rows no_statistics h c
    ∙ ap (or_value (last_value component statistic rows)) (no_statistic component statistic)
    ∙ or_value-none (last_value component statistic rows)
