-- ===== src/Trace/Writer/Promise.antt =====
-- The events that TRACE_FORMAT.md promises for the calls of the solver: what a reader of the trace has to
-- see, said without bytes.
use sst_sat.Base.{ℕ, ◌/◌, ◌%◌, ◌^◌, ◌≤◌, ◌<◌, List, [], ◌∷◌, Option, none, some}
use sst_sat.Base.Int.{pos, pos_part}
use sst_sat.Trace.Event.{Event, Context, phase_name, ds_name}
use sst_sat.Trace.Writer.{
  Call, mem, phase, level, tick, decision, enqueue, conflict, learn, backtrack, restart, reduce,
  flag,
}
use sst_sat.Trace.Writer.Varint.{IsInt64}

unfoldable pub context_after : Call → Context → Context
context_after (phase p) c = record c { phase = p }
context_after (level l) c = record c { level = pos_part l }
context_after (tick cycle) c = record c { cycle = cycle }
context_after _ c = c

module _ (ds_map : ℕ → ℕ) where
  unfoldable pub event_of : Call → Context → Option Event
  event_of (mem is_write addr size) c =
      let ds = ds_map (addr / 2 ^ 28 % 16) in
      some (Event.mem is_write c (phase_name c.phase) ds (ds_name ds) (pos addr) size)
  event_of (phase p) c = some (Event.phase (record c { phase = p }) (phase_name p))
  event_of (level l) c = none
  event_of (tick cycle) c = none
  event_of (decision var sign new_level) c =
      some (Event.decide c (pos_part var) (flag sign) (pos_part new_level))
  event_of (enqueue var sign reason) c = some (Event.enqueue c (pos_part var) (flag sign) reason)
  event_of (conflict cref) c = some (Event.conflict c (pos_part cref))
  event_of (learn lbd clause_size bt_level new_cref) c =
      some (
        Event.learn c (pos_part lbd) (pos_part clause_size) (pos_part bt_level) (pos_part new_cref))
  event_of (backtrack from to) c = some (Event.backtrack c (pos_part from) (pos_part to))
  event_of (restart idx) c = some (Event.restart c (pos_part idx))
  event_of (reduce removed kept) c = some (Event.reduce c (pos_part removed) (pos_part kept))

  abbrev pub consider : Option Event → List Event → List Event
  consider none es = es
  consider (some e) es = e ∷ es

  unfoldable pub promised : List Call → Context → List Event
  unfolding event_of context_after
  promised [] c = []
  promised (k ∷ ks) c = consider (event_of k c) (promised ks (context_after k c))

-- Ticks that never go back and fit 64 bits, `cycle` being the last tick, reasons of 64 bits, and addresses
-- below 2^63: the reader takes the difference of an address to the one before it as a signed number
-- of 64 bits, so that a larger one may read as a negative number.
abbrev pub IsRun : ℕ → List Call → Type 0
IsRun cycle [] = Unit
IsRun cycle (tick next ∷ cs) = (cycle ≤ next) × (next < 2 ^ 64) × IsRun next cs
IsRun cycle (mem is_write addr size ∷ cs) = (addr < 2 ^ 63) × IsRun cycle cs
IsRun cycle (enqueue var sign reason ∷ cs) = IsInt64 reason × IsRun cycle cs
IsRun cycle (_ ∷ cs) = IsRun cycle cs
