-- ===== src/Results/Csv/Keys.antt =====
-- The fields of the rows are those of the header.
use sst_sat.Base.{
  ◌≡◌, refl, arith, true, Bool-cases, inl, inr, Option, some, none, List, [], ◌∷◌, ◌++◌, subst,
}
use mathlib.Core.Option.{some-injective}
use sst_sat.Base.Lists.{All, All-append}
use sst_sat.Base.Dict.{lookup, insert}
use sst_sat.Python.Text.{Text, Text_eq, codes, eq_text, eq_text_iff}
use sst_sat.Python.Sorted.{sorted, le_text}
use sst_sat.Log.Value.{Floats, Value, real, Stats, BinKey, Bin, ◌>>=◌, >>=-some}
use sst_sat.Log.Number.{Arithmetic, percent, figure, zero_float}
use sst_sat.Results.Score.{le_case}
use sst_sat.Results.Fields.{fixed_fields, cycle_names, pct_field, drop_pct_key, wbv_fields}
use sst_sat.Results.Csv.{
  has_name, prop_keys, fieldnames, fill_row, default_of, put_cycle_pcts, put_drop_pct, put_blocks,
  csv_row, csv_rows, fill_initial, summary_row, write_csv_report, figure_or_zero, gt3_pct, bins_in,
}

-- Every name of a list is in it.
All-has_name :
    (x : Text) (xs ys : List Text)
    → All (λ f. has_name f xs ≡ true) ys
    → All (λ f. has_name f (x ∷ xs) ≡ true) ys
All-has_name x xs [] h = tt
All-has_name x xs (y ∷ ys) (h, more) = (ground (arith, h), All-has_name x xs ys more)

has_name_self : (xs : List Text) → All (λ f. has_name f xs ≡ true) xs
has_name_self [] = tt
has_name_self (x ∷ xs) =
    (ground (arith, (eq_text_iff x x).1 refl), All-has_name x xs xs (has_name_self xs))

-- Each key of a row is one of the fields.
abbrev pub KeysIn : {F : Type 0} → List Text → Stats F → Type 0
KeysIn fields = All (λ kv. has_name kv.0 fields ≡ true)

KeysIn-insert :
    {F : Type 0} (fields : List Text) (k : Text) (v : Value F) (row : Stats F)
    → has_name k fields ≡ true
    → KeysIn fields row
    → KeysIn fields (insert k v row)
unfolding insert
KeysIn-insert fields k v [] h rows = (h, tt)
KeysIn-insert fields k v ((j, w) ∷ row) h (first, rest) = elim (Bool-cases (eq_text j k)) [
  | inl e ↦ ground (arith, e)
  | inr e ↦ rw (e, insert) (first, KeysIn-insert fields k v row h rest)
]

module _ (fl : Floats) (ar : Arithmetic fl.Float) (fields : List Text) where
  -- The fields that follow have names that are fields too.
  fill_row-KeysIn :
      (default : Value fl.Float) (r : Stats fl.Float) (left : List Text) (row : Stats fl.Float)
      → All (λ f. has_name f fields ≡ true) left
      → KeysIn fields row
      → KeysIn fields (fill_row fl ar default r left row)
  unfolding fill_row
  fill_row-KeysIn default r [] row h rows = rows
  fill_row-KeysIn default r (f ∷ left) row (h, more) rows =
      fill_row-KeysIn default r left (insert f (figure fl ar f default r) row) more
        (KeysIn-insert fields f (figure fl ar f default r) row h rows)

  fill_initial-KeysIn :
      (left : List Text) (row : Stats fl.Float)
      → All (λ f. has_name f fields ≡ true) left
      → KeysIn fields row
      → KeysIn fields (fill_initial fl ar left row)
  unfolding fill_initial
  fill_initial-KeysIn [] row h rows = rows
  fill_initial-KeysIn (f ∷ left) row (h, more) rows =
      fill_initial-KeysIn left (insert f _ row) more (KeysIn-insert fields f _ row h rows)

  put_cycle_pcts-KeysIn :
      (r : Stats fl.Float) (names : List Text) (row out : Stats fl.Float)
      → All (λ n. has_name (pct_field n) fields ≡ true) names
      → KeysIn fields row
      → put_cycle_pcts fl ar r names row ≡ some out
      → KeysIn fields out
  unfolding put_cycle_pcts
  put_cycle_pcts-KeysIn r [] row out h rows e =
      subst (KeysIn fields) (some-injective row out e) rows
  put_cycle_pcts-KeysIn r (n ∷ names) row out (h, more) rows e =
      let (x, _, e2) =
        >>=-some
          (percent fl ar (figure_or_zero fl ar n r)
            (figure_or_zero fl ar (codes "total_counted_cycles") r))
          (λ x. put_cycle_pcts fl ar r names (insert (pct_field n) (real x) row)) out e in
      put_cycle_pcts-KeysIn r names (insert (pct_field n) (real x) row) out more
        (KeysIn-insert fields (pct_field n) (real x) row h rows) e2

  put_drop_pct-KeysIn :
      (r row out : Stats fl.Float)
      → has_name drop_pct_key fields ≡ true
      → KeysIn fields row
      → put_drop_pct fl ar r row ≡ some out
      → KeysIn fields out
  unfolding put_drop_pct
  put_drop_pct-KeysIn r row out h rows e =
      let (x, _, e2) =
        >>=-some
          (percent fl ar (figure_or_zero fl ar (codes "l1_prefetch_drops") r)
            (figure_or_zero fl ar (codes "l1_prefetch_requests") r))
          (λ x. some (insert drop_pct_key (real x) row)) out e in
      subst (KeysIn fields) (some-injective _ out e2)
        (KeysIn-insert fields drop_pct_key (real x) row h rows)

  put_blocks-KeysIn :
      (bs : List (BinKey × Bin fl.Float)) (row out : Stats fl.Float)
      → All (λ f. has_name f fields ≡ true) wbv_fields
      → KeysIn fields row
      → put_blocks fl ar bs row ≡ some out
      → KeysIn fields out
  unfolding put_blocks
  put_blocks-KeysIn bs row out (h1, (h2, (h3, (h4, _)))) rows e =
      let (x, _, e2) = >>=-some (gt3_pct fl ar (zero_float fl ar) bs) _ out e in
      subst (KeysIn fields) (some-injective _ out e2) (
        KeysIn-insert fields _ (real x) _ h4 (
          KeysIn-insert fields _ _ _ h3
            (KeysIn-insert fields _ _ _ h2 (KeysIn-insert fields _ _ row h1 rows))))

-- The fields that are in every header.
abbrev header : List Text → List Text
header more = fixed_fields ++ more

module _ (fl : Floats) (ar : Arithmetic fl.Float) (more : List Text) where
  csv_row-KeysIn :
      (r out : Stats fl.Float) → csv_row fl ar (header more) r ≡ some out → KeysIn (header more) out
  unfolding csv_row
  csv_row-KeysIn r out e =
      let blocks = bins_in (lookup (codes "watcher_blocks_visited_bins") r) in
      let (row2, e2, e3) = >>=-some _ (put_blocks fl ar blocks) out e in
      let (row1, e1, e4) = >>=-some _ (put_drop_pct fl ar r) row2 e2 in
      let filled =
        fill_row-KeysIn fl ar (header more) (default_of fl ar r) r (header more) []
          (has_name_self (header more)) tt in
      let pcts =
        put_cycle_pcts-KeysIn fl ar (header more) r cycle_names _ row1 (ground arith) filled e1 in
      let drop = put_drop_pct-KeysIn fl ar (header more) r row1 row2 refl pcts e4 in
      put_blocks-KeysIn fl ar (header more) blocks row2 out (ground arith) drop e3

  csv_rows-KeysIn :
      (rs out : List (Stats fl.Float))
      → csv_rows fl ar (header more) rs ≡ some out
      → All (KeysIn (header more)) out
  unfolding csv_rows
  csv_rows-KeysIn [] out e = subst (All (KeysIn (header more))) (some-injective [] out e) tt
  csv_rows-KeysIn (r ∷ rs) out e =
      let (row, e1, e2) =
        >>=-some (csv_row fl ar (header more) r)
          (λ row. csv_rows fl ar (header more) rs >>= (λ rows. some (row ∷ rows))) out e in
      let (rows, e3, e4) =
        >>=-some (csv_rows fl ar (header more) rs) (λ rows. some (row ∷ rows)) out e2 in
      subst (All (KeysIn (header more))) (some-injective (row ∷ rows) out e4)
        (csv_row-KeysIn r row e1, csv_rows-KeysIn rs rows e3)

  summary_row-KeysIn :
      (solved : Text) (par2 : fl.Float)
      → KeysIn (header more) (summary_row fl ar (header more) solved par2)
  unfolding summary_row
  summary_row-KeysIn solved par2 =
      let filled =
        fill_initial-KeysIn fl ar (header more) (header more) [] (has_name_self (header more)) tt in
      let put = KeysIn-insert {F = fl.Float} (header more) in
      put _ _ _ refl (put _ _ _ refl (put _ _ _ refl (put _ _ _ refl filled)))

-- Each row that is written has only fields of the header, so DictWriter takes it: those of the results,
-- and the last one with the score.
pub write_csv_report-KeysIn :
    (fl : Floats) (ar : Arithmetic fl.Float) (results : List (Stats fl.Float))
    (score : Option (Text × fl.Float)) (rows : List (Stats fl.Float))
    → write_csv_report fl ar results score ≡ some rows
    → All (KeysIn (fieldnames results)) rows
unfolding write_csv_report fieldnames
write_csv_report-KeysIn fl ar results none rows e =
    csv_rows-KeysIn fl ar (sorted le_text (prop_keys results [])) (sorted le_case results) rows e
write_csv_report-KeysIn fl ar results (some (solved, par2)) rows e =
    let more = sorted le_text (prop_keys results []) in
    let (out, e1, e2) =
      >>=-some (csv_rows fl ar (header more) (sorted le_case results))
        (λ rows. some (rows ++ (summary_row fl ar (header more) solved par2 ∷ []))) rows e in
    subst (All (KeysIn (header more))) (some-injective _ rows e2) (
      All-append (KeysIn (header more)) out (summary_row fl ar (header more) solved par2 ∷ [])
        (csv_rows-KeysIn fl ar more (sorted le_case results) out e1)
        (summary_row-KeysIn fl ar more solved par2, tt))
