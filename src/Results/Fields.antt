-- ===== src/Results/Fields.antt =====
-- The names of the figures that tools/parse_results.py averages and writes.
use sst_sat.Base.{List, [], ◌∷◌, ◌++◌, map}
use sst_sat.Python.Text.{Text, codes}

abbrev pub memory_key : Text
memory_key = codes "total_memory_bytes"

abbrev pub formatted_key : Text
formatted_key = codes "total_memory_formatted"

-- Solver statistics
abbrev solver_fields : List Text
solver_fields =
    codes "decisions"
    ∷ codes "propagations"
    ∷ codes "conflicts"
    ∷ codes "learned"
    ∷ codes "removed"
    ∷ codes "db_reductions"
    ∷ codes "minimized"
    ∷ codes "restarts"
    ∷ []

abbrev l1_fields : List Text
l1_fields =
    codes "l1_total_requests"
    ∷ codes "l1_total_miss_rate"
    ∷ codes "l1_heap_total"
    ∷ codes "l1_heap_miss_rate"
    ∷ codes "l1_variables_total"
    ∷ codes "l1_variables_miss_rate"
    ∷ codes "l1_watches_total"
    ∷ codes "l1_watches_miss_rate"
    ∷ codes "l1_clauses_total"
    ∷ codes "l1_clauses_miss_rate"
    ∷ codes "l1_varactivity_total"
    ∷ codes "l1_varactivity_miss_rate"
    ∷ []

abbrev pub cycle_names : List Text
cycle_names =
    codes "propagate_cycles"
    ∷ codes "analyze_cycles"
    ∷ codes "minimize_cycles"
    ∷ codes "backtrack_cycles"
    ∷ codes "decision_cycles"
    ∷ codes "reduce_db_cycles"
    ∷ codes "heap_insert_cycles"
    ∷ codes "heap_bump_cycles"
    ∷ codes "restart_cycles"
    ∷ []

-- name.replace('_cycles', '_cycles_pct'), for the names above, which end with it.
abbrev pub pct_field : Text → Text
pct_field name = name ++ codes "_pct"

abbrev total_cycles_fields : List Text
total_cycles_fields = codes "total_counted_cycles" ∷ []

abbrev pub base_fields : List Text
base_fields =
    (codes "test_case"
      ∷ codes "result"
      ∷ codes "variables"
      ∷ codes "clauses"
      ∷ memory_key
      ∷ formatted_key
      ∷ codes "sim_time_ms"
      ∷ solver_fields)
    ++ ((codes "spec_started" ∷ codes "spec_finished" ∷ l1_fields)
        ++ (cycle_names ++ (total_cycles_fields ++ map pct_field cycle_names)))

abbrev prefetcher_fields : List Text
prefetcher_fields =
    codes "prefetches_issued"
    ∷ codes "prefetches_used"
    ∷ codes "prefetches_unused"
    ∷ codes "prefetch_accuracy"
    ∷ codes "l1_prefetch_requests"
    ∷ codes "l1_prefetch_drops"
    ∷ []

abbrev pub drop_pct_key : Text
drop_pct_key = codes "l1_prefetch_drop_pct"

abbrev pub extra_fixed : List Text
extra_fixed = prefetcher_fields ++ (drop_pct_key ∷ [])

abbrev pub wbv_fields : List Text
wbv_fields =
    codes "watcher_blocks_visited_1_pct"
    ∷ codes "watcher_blocks_visited_2_pct"
    ∷ codes "watcher_blocks_visited_3_pct"
    ∷ codes "watcher_blocks_visited_gt3_pct"
    ∷ []

abbrev pub fixed_fields : List Text
fixed_fields = base_fields ++ (extra_fixed ++ wbv_fields)

-- `numeric_fields_excluding_time`
abbrev pub numeric_fields_excluding_time : List Text
numeric_fields_excluding_time =
    (codes "variables" ∷ codes "clauses" ∷ memory_key ∷ solver_fields)
    ++ (l1_fields ++ (cycle_names ++ (total_cycles_fields ++ prefetcher_fields)))
