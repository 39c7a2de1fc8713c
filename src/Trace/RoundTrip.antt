-- ===== src/Trace/RoundTrip.antt =====
-- What the solver's calls write, `iter_events` reads back.
mod Turns
pub mod SecondWriter
mod Runs
mod Bytes
use sst_sat.Base.{
  ℕ, zero, suc, ◌+◌, ◌-◌, ◌*◌, ◌/◌, ◌%◌, ◌^◌, ◌≤◌, ◌<◌, ◌≡◌, refl, ◌∙◌, ap, sym, subst, Bool, true,
  false, List, [], ◌∷◌, ◌++◌, append_assoc, append-nil, Option, some, none, map, length,
  length-append, take, drop, set, All, arith,
}
use native.Mathlib.Nat.{
  zero-add, suc-add, div-add-mod, add-mul-mod_self_left, mod-eq_of_lt, mod-lt, one-le-pow,
  pow-succ',
}
use Turns.{IsSound, reader_of}
use Runs.{events-after_all, length-records, yield_all, events_loop-records, context_after_all}
use Bytes.{from_bytes-little_endian}
use sst_sat.Base.Int.{pos}
use sst_sat.Base.Result.{ok}
use sst_sat.Trace.Event.{View, Context, Event}
use sst_sat.Trace.Writer.{
  Writer, Call, mem, phase, level, tick, decision, enqueue, conflict, learn, backtrack, restart,
  reduce, fresh, slot, classify, emit_mem, emitted, after, after_all, records, stream, closing,
  checksum, little_endian,
}
use sst_sat.Trace.Writer.Promise.{event_of, context_after, promised, consider, IsRun}
use sst_sat.Trace.Reader.{
  Reader, Stream, go, yield, done, yield_first, init, turn, events_loop, body_events, on_finish,
  from_bytes,
}
use sst_sat.Trace.Reader.Records.{
  on_tick-write, on_level-write, on_phase-write, on_decide-write, on_enqueue-write,
  on_conflict-write, on_learn-write, on_backtrack-write, on_restart-write, on_reduce-write,
}
use sst_sat.Trace.Reader.MemRecord.{on_mem-write}

-- The FINISH record ends the loop.
events_loop-closing :
    (n fuel total_cycles events crc : ℕ) (s : Reader)
    → events_loop n (suc fuel) View.all (closing total_cycles events crc) s ≡ record {
      events = Event.finish (total_cycles % 2 ^ 64) (events % 2 ^ 64) (crc % 2 ^ 32) ∷ [];
      ending = done;
    }
unfolding events_loop turn on_finish closing little_endian
events_loop-closing n fuel total_cycles events crc s = λ i. record {
  events =
      Event.finish (from_bytes-little_endian 8 total_cycles i) (from_bytes-little_endian 8 events i)
        (from_bytes-little_endian 4 crc i)
      ∷ [];
  ending = done;
}

length-closing : (total_cycles events crc : ℕ) → 1 ≤ length (closing total_cycles events crc)
unfolding closing
length-closing total_cycles events crc = omega arith

yield_all-append :
    (es fs : List Event)
    → yield_all es (record { events = fs; ending = done })
      ≡ record { events = es ++ fs; ending = done }
yield_all-append [] fs = refl
yield_all-append (e ∷ es) fs = rw (yield_all-append es fs)

IsSound-fresh : (ds_map : ℕ → ℕ) → ((nibble : ℕ) → ds_map nibble < 9) → IsSound (fresh ds_map 0)
unfolding fresh
IsSound-fresh ds_map h = record { mapped = h; nine = refl; below = omega arith }

module _ (ds_map : ℕ → ℕ) (cs : List Call) (total_cycles crc : ℕ)
    (mapped : (nibble : ℕ) → ds_map nibble < 9) (run : IsRun 0 cs) where
  abbrev start : Context
  start = record { cycle = 0; phase = 0; level = 0 }

  abbrev seen : Stream
  seen = record {
    events =
        promised ds_map cs start
        ++ (Event.finish (total_cycles % 2 ^ 64) (length cs % 2 ^ 64) (crc % 2 ^ 32) ∷ []);
    ending = done;
  }

  abbrev last : Writer
  last = after_all cs (fresh ds_map 0)

  -- With more turns than there are calls.
  events_loop-stream :
      (n fuel : ℕ)
      → length cs < fuel
      → events_loop n fuel View.all
          (records cs (fresh ds_map 0) ++ closing total_cycles last.events crc)
          (reader_of (fresh ds_map 0) start)
        ≡ seen
  unfolding fresh
  events_loop-stream n fuel h =
      let e : fuel ≡ length cs + suc (fuel - length cs - 1) = omega arith in
      subst
        (λ f.
          events_loop n f View.all
            (records cs (fresh ds_map 0) ++ closing total_cycles last.events crc)
            (reader_of (fresh ds_map 0) start)
          ≡ seen)
        (sym e)
        ((events_loop-records cs n (suc (fuel - length cs - 1)) (fresh ds_map 0) start _
            (IsSound-fresh ds_map mapped) refl run
          ∙ rw (events_loop-closing, events-after_all, zero-add)
              (yield_all-append (promised ds_map cs start) _)))

-- The body of a trace, behind the header, that a thread's first writer makes of a run of calls reads as
-- the promised events in their order and then the FINISH record, with the number of the calls and the
-- checksum of their records, and the generator ends without an error. In a run the ticks never go back
-- and are below 2^64, each reason is a 64-bit integer, and each address is below 2^63. The table of the
-- data structures gives numbers below 9.
pub body_events-stream :
    (ds_map : ℕ → ℕ) (total_cycles : ℕ) (cs : List Call)
    → ((nibble : ℕ) → ds_map nibble < 9)
    → IsRun 0 cs
    → body_events View.all (stream total_cycles cs (fresh ds_map 0)) ≡ record {
      events =
          promised ds_map cs (record { cycle = 0; phase = 0; level = 0 })
          ++ (Event.finish
                (total_cycles % 2 ^ 64)
                (length cs % 2 ^ 64)
                (checksum (records cs (fresh ds_map 0)) % 2 ^ 32)
              ∷ []);
      ending = done;
    }
unfolding body_events stream init fresh
body_events-stream ds_map total_cycles cs mapped h =
    let w : Writer = fresh ds_map 0 in
    events_loop-stream ds_map cs total_cycles (checksum (records cs w)) mapped h _ _ (
      omega (
        arith,
        length-append (records cs w)
            (closing total_cycles (after_all cs w).events (checksum (records cs w))),
        length-records cs w,
        length-closing total_cycles (after_all cs w).events (checksum (records cs w)),
      ))
