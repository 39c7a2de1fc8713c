-- ===== src/Tools/Bandwidth.antt =====
-- tools/parse_bandwidth.py: the bandwidths of the runs of a folder.
use sst_sat.Base.{
  ℕ, ◌-◌, Bool, true, ◌||◌, not, Option, some, none, List, [], ◌∷◌, ◌++◌, length, map, drop, ltb,
  ◌==◌, if◌then◌else◌,
}
use sst_sat.Base.Int.{pos, negsuc}
use sst_sat.Base.Dict.{lookup}
use sst_sat.Python.Text.{Text, Text_eq, codes, eq_text, null}
use sst_sat.Python.Sorted.{sorted}
use sst_sat.Log.Value.{Floats, Value, whole, real, text, bins, Stats, ◌>>=◌}
use sst_sat.Log.Number.{Arithmetic, figure, multiply, quotient, sum_from, zero_float, text_in}

pub record Bandwidth (F : Type 0) : Type 0 where
  pub test_case : Text
  pub l1 : F
  pub l2 : F
  pub ddr : F
  pub seed : Option Text

-- in ('TIMEOUT', 'ERROR', 'UNKNOWN')
abbrev pub unfinished_label : Text → Bool
unfinished_label t =
    eq_text t (codes "TIMEOUT") || (eq_text t (codes "ERROR") || eq_text t (codes "UNKNOWN"))

module _ (fl : Floats) (ar : Arithmetic fl.Float) where
  -- `not v or v <= 0`; a text that is not empty raises a TypeError.
  unfoldable pub lacks_time : Value fl.Float → Option Bool
  lacks_time (whole (pos n)) = some (n == 0)
  lacks_time (whole (negsuc n)) = some true
  lacks_time (real x) = some (fl.is_zero x || ar.at_most x (zero_float fl ar))
  lacks_time (text t) = if null t then some true else none
  lacks_time (bins bs) = if null bs then some true else none

  abbrev pub sim_time : Stats fl.Float → Value fl.Float
  unfolding lookup
  sim_time r = figure fl ar (codes "sim_time_ms") (whole (pos 0)) r

  -- count * CACHE_LINE_SIZE / sim_time_s / 1e9
  rate : fl.Float → Value fl.Float → Option fl.Float
  unfolding multiply quotient
  rate seconds count =
      multiply fl ar count (whole (pos 64))
      >>= (λ bytes. quotient fl ar bytes (real seconds))
      >>= (λ x. some (ar.divided x (fl.of_ℕ 1000000000)))

  -- The three rates; time that is too short for a float to be above 0 is a ZeroDivisionError.
  rates :
      Text
      → Value fl.Float
      → Value fl.Float
      → Value fl.Float
      → fl.Float
      → Option (Option (Bandwidth fl.Float))
  unfolding rate
  rates test_case l1_requests l1_misses l2_misses seconds =
      if fl.is_zero seconds
      then none
      else rate seconds l1_requests >>= (λ l1. rate seconds l1_misses >>= (λ l2.
        rate seconds l2_misses >>= (λ ddr.
          some
            (some (record { test_case = test_case; l1 = l1; l2 = l2; ddr = ddr; seed = none })))))

  -- A count that is missing gives no bandwidth.
  with_counts :
      Stats fl.Float
      → Option (Value fl.Float)
      → Option (Value fl.Float)
      → Option (Value fl.Float)
      → Option (Option (Bandwidth fl.Float))
  unfolding rates quotient lookup
  with_counts r (some l1_requests) (some l1_misses) (some l2_misses) =
      quotient fl ar (sim_time r) (real (fl.of_ℕ 1000))
      >>= rates (text_in (lookup (codes "test_case") r)) l1_requests l1_misses l2_misses
  with_counts r l1_requests l1_misses l2_misses = some none

  -- The outer Option is an exception, the inner one Python's None.
  unfoldable pub compute_bandwidth : Stats fl.Float → Option (Option (Bandwidth fl.Float))
  unfolding lacks_time with_counts lookup
  compute_bandwidth r =
      if unfinished_label (text_in (lookup (codes "result") r))
      then some none
      else lacks_time (sim_time r) >>= (λ b.
        if b
        then some none
        else with_counts r (lookup (codes "agg_l1_total_requests") r)
            (lookup (codes "agg_l1_misses") r) (lookup (codes "agg_l2_misses") r))

  abbrev add_bandwidth :
      Option Text
      → Option (Bandwidth fl.Float)
      → List (Bandwidth fl.Float)
      → List (Bandwidth fl.Float)
  add_bandwidth seed none bws = bws
  add_bandwidth seed (some bw) bws = record bw { seed = seed } ∷ bws

  -- The loop over the results of a folder; bw['seed'] = sd.name if it is the folder of a seed.
  unfoldable pub bandwidths_of :
      Option Text → List (Stats fl.Float) → Option (List (Bandwidth fl.Float))
  unfolding compute_bandwidth
  bandwidths_of seed [] = some []
  bandwidths_of seed (r ∷ rs) =
      compute_bandwidth r
      >>= (λ bw. bandwidths_of seed rs >>= (λ bws. some (add_bandwidth seed bw bws)))

  unfoldable pub seed_bandwidths :
      List (Text × List (Stats fl.Float)) → Option (List (Bandwidth fl.Float))
  unfolding bandwidths_of
  seed_bandwidths [] = some []
  seed_bandwidths ((name, results) ∷ seeds) =
      bandwidths_of (some name) results
      >>= (λ bws. seed_bandwidths seeds >>= (λ rest. some (bws ++ rest)))

  -- The bandwidths, and the number of seeds.
  unfoldable pub parse_result_folder :
      List (Text × List (Stats fl.Float))
      → List (Stats fl.Float)
      → Option (List (Bandwidth fl.Float) × ℕ)
  unfolding seed_bandwidths bandwidths_of
  parse_result_folder [] results = bandwidths_of none results >>= (λ bws. some (bws, 1))
  parse_result_folder (seed ∷ seeds) results =
      seed_bandwidths (seed ∷ seeds) >>= (λ bws. some (bws, length (seed ∷ seeds)))

  -- min and max: the first of the least or greatest.
  unfoldable pub min_from : fl.Float → List fl.Float → fl.Float
  min_from low [] = low
  min_from low (x ∷ xs) = min_from (if ar.less x low then x else low) xs

  unfoldable pub max_from : fl.Float → List fl.Float → fl.Float
  max_from high [] = high
  max_from high (x ∷ xs) = max_from (if ar.less high x then x else high) xs

  pub record Range : Type 0 where
    pub average : fl.Float
    pub low : fl.Float
    pub high : fl.Float

  -- The row of a memory level, for the first value and the others.
  unfoldable pub range_of : fl.Float → List fl.Float → Range
  unfolding sum_from min_from max_from
  range_of x xs = record {
    average = ar.shared (sum_from fl ar (zero_float fl ar) (x ∷ xs)) (length (x ∷ xs));
    low = min_from x xs;
    high = max_from x xs;
  }

  -- The rows for L1, L2 and DDR; no row if there is no bandwidth.
  unfoldable pub range_summary : List (Bandwidth fl.Float) → Option (Range × Range × Range)
  unfolding range_of
  range_summary [] = none
  range_summary (b ∷ bs) = some (
    range_of b.l1 (map (λ x. x.l1) bs),
    range_of b.l2 (map (λ x. x.l2) bs),
    range_of b.ddr (map (λ x. x.ddr) bs),
  )

  -- By the DDR bandwidth, the greatest first.
  unfoldable pub by_ddr : List (Bandwidth fl.Float) → List (Bandwidth fl.Float)
  unfolding sorted
  by_ddr bws = sorted (λ x y. not (ar.less x.ddr y.ddr)) bws

-- The name in the breakdown, at most 58 characters of it.
abbrev seed_suffix : Option Text → Text
seed_suffix none = []
seed_suffix (some seed) = codes " [" ++ (seed ++ codes "]")

unfoldable pub shown_name : {F : Type 0} → Bandwidth F → Text
shown_name b =
    let name = b.test_case ++ seed_suffix b.seed in
    if ltb 58 (length name) then codes "..." ++ drop (length name - 55) name else name
