-- ===== src/Trace/Summary.antt =====
-- `summarize` of tools/trace_lib.py.
pub mod Counts
use sst_sat.Base.{ℕ, ◌+◌, List, [], ◌∷◌, Option, none, some, ◌==◌, if◌then◌else◌}
use sst_sat.Base.Result.{Result, ok, raise}
use sst_sat.Base.Dict.{Dict, lookup, insert}
use sst_sat.Python.Text.{Text, codes, Text_eq}
use sst_sat.Trace.Error.{Error}
use sst_sat.Trace.Event.{
  Event, phase, mem, decide, enqueue, conflict, learn, backtrack, restart, reduce, finish,
}
use sst_sat.Trace.Reader.{Stream, done, raised, stuck}
use sst_sat.Trace.Header.{Header, parse_header, iter_events}
use mathlib.Core.Option.{get_or}

-- ev['kind']
unfoldable pub kind : Event → Text
kind (phase _ _) = codes "phase"
kind (mem is_write _ _ _ _ _ _) = if is_write then codes "mem_write" else codes "mem_read"
kind (decide _ _ _ _) = codes "decide"
kind (enqueue _ _ _ _) = codes "enqueue"
kind (conflict _ _) = codes "conflict"
kind (learn _ _ _ _ _) = codes "learn"
kind (backtrack _ _ _) = codes "backtrack"
kind (restart _ _) = codes "restart"
kind (reduce _ _ _) = codes "reduce"
kind (finish _ _ _) = codes "finish"

abbrev pub Counts : Type 0
Counts = Dict Text ℕ

abbrev pub count_of : Text → Counts → ℕ
count_of k d = get_or (lookup k d) 0

-- `counts[k] = counts.get(k, 0) + 1`
unfoldable pub count_one : Text → Counts → Counts
count_one k d = insert k (count_of k d + 1) d

pub record Tally : Type 0 where
  pub counts : Counts
  pub ds_counts : Counts
  pub phase_counts : Counts
  pub total_mem_bytes : ℕ

abbrev pub no_tally : Tally
no_tally = record { counts = []; ds_counts = []; phase_counts = []; total_mem_bytes = 0 }

-- The branches on `k` behind the count of the kind. `if ev['size']` adds nothing at 0.
unfoldable pub tally_payload : Event → Tally → Tally
unfolding count_one
tally_payload (mem is_write c p ds ds_name addr size) t = record t {
  ds_counts = count_one ds_name t.ds_counts;
  total_mem_bytes = if size == 0 then t.total_mem_bytes else t.total_mem_bytes + size;
}
tally_payload (phase c name) t = record t { phase_counts = count_one name t.phase_counts }
tally_payload _ t = t

unfoldable pub tally_event : Tally → Event → Tally
unfolding tally_payload
tally_event t ev = tally_payload ev (record t { counts = count_one (kind ev) t.counts })

unfoldable pub tally : Tally → List Event → Tally
unfolding tally_event
tally t [] = t
tally t (ev ∷ evs) = tally (tally_event t ev) evs

-- The dict that is returned, or the error that ends the loop over `iter_events`.
abbrev pub summary_of : Header → Stream → Option (Result Error (Header × Tally))
summary_of hdr s = elim s.ending [
  | done ↦ some (ok (hdr, tally no_tally s.events))
  | raised e ↦ some (raise e)
  | stuck ↦ none
]

-- `none` is no Python outcome: a loop ran out of fuel.
unfoldable pub summarize : List ℕ → Option (Result Error (Header × Tally))
unfolding tally
summarize file = elim (parse_header file) [
  | none ↦ none
  | some (raise e) ↦ some (raise e)
  | some (ok hdr) ↦ summary_of hdr (iter_events file (codes "all"))
]
