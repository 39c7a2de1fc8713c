-- ===== src/Tools/Histogram.antt =====
-- tools/parse_histogram.py: the bins of several results, added up, and the rows for each test.
pub mod Order
pub mod Totals
use sst_sat.Base.{
  ℕ, zero, suc, ◌+◌, ◌-◌, Bool, true, false, ◌&&◌, ◌||◌, not, Option, some, none, List, [], ◌∷◌,
  ◌++◌, map, length, ltb, leb, ◌==◌, if◌then◌else◌,
}
use sst_sat.Base.Lists.{replicate}
use sst_sat.Base.Int.{ℤ, pos, negsuc, ◌+ℤ◌, eqb_ℤ}
use sst_sat.Base.Dict.{Dict, lookup, insert}
use sst_sat.Python.Text.{Text, Text_eq, codes, eq_text, has_char, split_on, null}
use sst_sat.Python.Number.{int, str, str_ℕ}
use sst_sat.Python.Regex.{is_digit}
use sst_sat.Python.Sorted.{sorted, le_text}
use sst_sat.Log.Value.{
  Floats, Value, whole, real, text, bins, Stats, BinKey, BinKey_eq, at, range, Bin, ◌>>=◌,
}
use sst_sat.Log.Number.{text_in}
use mathlib.Core.Option.{get_or}

-- r.get('result') in ('SAT', 'UNSAT', 'UNKNOWN')
abbrev is_listed : {F : Type 0} → Stats F → Bool
unfolding lookup
is_listed r =
    let label = text_in (lookup (codes "result") r) in
    eq_text label (codes "SAT")
    || (eq_text label (codes "UNSAT") || eq_text label (codes "UNKNOWN"))

unfoldable pub finished_of : {F : Type 0} → List (Stats F) → List (Stats F)
unfolding is_listed
finished_of [] = []
finished_of (r ∷ rs) = let rest = finished_of rs in if is_listed r then r ∷ rest else rest

abbrev all_results : {F : Type 0} → List (List (Stats F)) → List (Stats F)
all_results [] = []
all_results (rs ∷ rest) = rs ++ all_results rest

-- The results of the seed folders one after the other, or those of the folder itself if it has none.
unfoldable pub collect_results :
    {F : Type 0} → List (List (Stats F)) → List (Stats F) → List (Stats F)
unfolding finished_of
collect_results [] results = finished_of results
collect_results (seed ∷ seeds) results = finished_of (all_results (seed ∷ seeds))

-- r.get(histogram_key, {}) or {}, a dict of bins
abbrev pub HistogramBins : Type 0 → Type 0
HistogramBins F = Dict BinKey (Bin F)

abbrev pub bins_of : {F : Type 0} → Option (Value F) → HistogramBins F
bins_of (some (bins bs)) = bs
bins_of v = []

unfoldable pub bins_at : {F : Type 0} → Text → Stats F → HistogramBins F
unfolding lookup
bins_at key r = bins_of (lookup key r)

-- str(bin_key)
unfoldable pub key_str : BinKey → Text
unfolding str
key_str (at n) = str n
key_str (range t) = t

abbrev pub Totals : Type 0
Totals = Dict Text ℤ

-- totals.get(key, 0)
abbrev pub total_of : Text → Totals → ℤ
total_of k totals = get_or (lookup k totals) (pos 0)

-- A bin without samples is passed over.
unfoldable pub add_bin : Text → ℤ → Totals → Totals
unfolding insert
add_bin k samples totals =
    if eqb_ℤ samples (pos 0) then totals else insert k (total_of k totals +ℤ samples) totals

unfoldable pub add_bins : {F : Type 0} → HistogramBins F → Totals → Totals
unfolding add_bin key_str
add_bins [] totals = totals
add_bins ((k, b) ∷ bs) totals = add_bins bs (add_bin (key_str k) b.samples totals)

unfoldable pub add_results : {F : Type 0} → Text → List (Stats F) → Totals → Totals
unfolding add_bins bins_at
add_results key [] totals = totals
add_results key (r ∷ rs) totals = add_results key rs (add_bins (bins_at key r) totals)

unfoldable pub aggregate_bins : {F : Type 0} → List (Stats F) → Text → Totals
unfolding add_results
aggregate_bins results key = add_results key results []

-- A rank, with a number that is infinite if the start of a range cannot be read, or a text.
pub data SortKey : Type 0 where
  single : ℤ → SortKey
  span : Option ℤ → SortKey
  beyond : SortKey
  other : Text → SortKey

-- key_fn
unfoldable pub sort_key : Text → SortKey
unfolding int split_on
sort_key k =
    if eq_text k (codes "out_of_bounds")
    then beyond
    else if has_char b'-' k
    then span (int (split_on b'-' k).0)
    else elim (int k) [ some n ↦ single n | none ↦ other k ]

abbrev pub le_ℤ : ℤ → ℤ → Bool
le_ℤ (pos m) (pos n) = leb m n
le_ℤ (pos m) (negsuc n) = false
le_ℤ (negsuc m) (pos n) = true
le_ℤ (negsuc m) (negsuc n) = leb n m

-- s <= t, where the infinite start comes last
abbrev pub le_start : Option ℤ → Option ℤ → Bool
le_start s none = true
le_start none (some n) = false
le_start (some m) (some n) = le_ℤ m n

abbrev rank : SortKey → ℕ
rank (single n) = 1
rank (span s) = 2
rank beyond = 3
rank (other t) = 4

-- The order of Python's tuples: by the rank, then by what follows it.
unfoldable pub le_key : SortKey → SortKey → Bool
unfolding le_text
le_key (single m) (single n) = le_ℤ m n
le_key (span s) (span t) = le_start s t
le_key beyond beyond = true
le_key (other s) (other t) = le_text s t
le_key j k = ltb (rank j) (rank k)

abbrev pub le_bin : Text → Text → Bool
le_bin j k = le_key (sort_key j) (sort_key k)

unfoldable pub sort_bin_keys : List Text → List Text
unfolding sorted sort_key le_key
sort_bin_keys keys = sorted le_bin keys

abbrev pub has_key_in : Text → List Text → Bool
has_key_in k [] = false
has_key_in k (j ∷ js) = eq_text j k || has_key_in k js

abbrev add_key : Text → List Text → List Text
add_key k keys = if has_key_in k keys then keys else keys ++ (k ∷ [])

unfoldable pub add_bin_keys : {F : Type 0} → HistogramBins F → List Text → List Text
unfolding key_str
add_bin_keys [] keys = keys
add_bin_keys ((k, b) ∷ bs) keys = add_bin_keys bs (add_key (key_str k) keys)

unfoldable pub all_bin_keys : {F : Type 0} → Text → List (Stats F) → List Text → List Text
unfolding add_bin_keys bins_at
all_bin_keys key [] keys = keys
all_bin_keys key (r ∷ rs) keys = all_bin_keys key rs (add_bin_keys (bins_at key r) keys)

unfoldable pub collect_all_bin_keys : {F : Type 0} → List (Stats F) → Text → List Text
unfolding all_bin_keys sort_bin_keys
collect_all_bin_keys results key = sort_bin_keys (all_bin_keys key results [])

-- The fields that may name a test.
abbrev id_keys : List Text
id_keys =
    codes "benchmark"
    ∷ codes "instance"
    ∷ codes "problem"
    ∷ codes "cnf"
    ∷ codes "source"
    ∷ codes "log_path"
    ∷ codes "logfile"
    ∷ codes "log_file"
    ∷ codes "file"
    ∷ codes "filename"
    ∷ codes "name"
    ∷ codes "test"
    ∷ codes "case"
    ∷ []

unfoldable pub first_id : {F : Type 0} → Stats F → List Text → Text → Text
unfolding lookup
first_id meta [] fallback = fallback
first_id meta (key ∷ keys) fallback =
    let rest = first_id meta keys fallback in
    let t = text_in (lookup key meta) in if null t then rest else t

unfoldable pub choose_test_id : {F : Type 0} → Stats F → Text → Text
unfolding first_id
choose_test_id meta fallback = first_id meta id_keys fallback

-- f'test_{idx:05d}'
unfoldable pub numbered_id : ℕ → Text
unfolding str_ℕ
numbered_id n =
    let digits = str_ℕ n in codes "test_" ++ (replicate (5 - length digits) b'0' ++ digits)

abbrev samples_in : {F : Type 0} → Option (Bin F) → ℤ
samples_in none = pos 0
samples_in (some b) = b.samples

-- k.isdigit(), for the texts that are keys
abbrev digits_only : Text → Bool
unfolding is_digit
digits_only [] = true
digits_only (c ∷ t) = is_digit c && digits_only t

abbrev is_digits : Text → Bool
is_digits k = not (null k) && digits_only k

-- The count under a key of the header: of a key of digits, the bin of the text or else of the number.
unfoldable pub count_for : {F : Type 0} → Text → HistogramBins F → ℤ
unfolding lookup int digits_only
count_for k bs = elim (lookup (range k) bs) [
  | some b ↦ b.samples
  | none ↦ elim (int k) [
    | some n ↦ samples_in (if is_digits k then lookup (at n) bs else none)
    | none ↦ pos 0
  ]
]

pub record Row : Type 0 where
  pub test_id : Text
  pub result : Text
  pub counts : List ℤ

unfoldable pub per_test_rows : {F : Type 0} → Text → List Text → ℕ → List (Stats F) → List Row
unfolding choose_test_id numbered_id count_for bins_at lookup
per_test_rows key ordered_keys idx [] = []
per_test_rows key ordered_keys idx (r ∷ rs) =
    record {
      test_id = choose_test_id r (numbered_id idx);
      result = text_in (lookup (codes "result") r);
      counts = map (λ k. count_for k (bins_at key r)) ordered_keys;
    }
    ∷ per_test_rows key ordered_keys (suc idx) rs

-- What `main` writes: 'watchers_bins.csv' and 'literal_bins.csv', each with its header and its rows.
unfoldable pub main :
    {F : Type 0} → List (Stats F) → Option ((List Text × List Row) × (List Text × List Row))
unfolding collect_all_bin_keys per_test_rows
main [] = none
main (r ∷ rs) =
    let file : Text → List Text × List Row = λ key.
      let keys = collect_all_bin_keys (r ∷ rs) key in (keys, per_test_rows key keys 0 (r ∷ rs)) in
    some (file (codes "watchers_bins"), file (codes "variables_bins"))
