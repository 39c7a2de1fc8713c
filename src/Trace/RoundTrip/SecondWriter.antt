-- ===== src/Trace/RoundTrip/SecondWriter.antt =====
-- `emitTick` keeps the last cycle in a variable that all the writers of a thread share, while a reader
-- starts each trace at cycle 0.
use sst_sat.Base.{ℕ, suc, ◌+◌, ◌-◌, ◌%◌, ◌^◌, ◌<◌, ◌≡◌, ◌≢◌, ◌∙◌, List, ◌++◌, arith}
use native.Mathlib.Nat.{zero-add}
use sst_sat.Trace.Event.{View}
use sst_sat.Trace.Writer.{tick, fresh, emitted}
use sst_sat.Trace.Reader.{Reader, init, turn, events_loop}
use sst_sat.Trace.Reader.Records.{on_tick-write}
use sst_sat.Trace.RoundTrip.Turns.{loop-go}

abbrev pub at_cycle : ℕ → Reader
at_cycle cycle = record {
  context = record { cycle = cycle; phase = 0; level = 0 };
  last_addr = init.last_addr;
}

-- A writer that is opened after another one of its thread has reached cycle `last`: the first tick of its
-- trace takes a reader to another cycle than the one that the writer was called with.
pub second_writer_tick :
    (n fuel last cycle : ℕ) (ds_map : ℕ → ℕ) (rest : List ℕ)
    → 0 < last
    → last < 2 ^ 64
    → cycle < 2 ^ 64
    → (events_loop n (suc fuel) View.all (emitted (tick cycle) (fresh ds_map last) ++ rest) init
        ≡ events_loop n fuel View.all rest (at_cycle ((cycle + 2 ^ 64 - last) % 2 ^ 64)))
      × ((cycle + 2 ^ 64 - last) % 2 ^ 64 ≢ cycle)
unfolding turn emitted fresh init
second_writer_tick n fuel last cycle ds_map rest h k l =
    (loop-go n fuel _ _ _ _ _ _ (on_tick-write _ _ _) ∙ rw (zero-add), omega arith)
