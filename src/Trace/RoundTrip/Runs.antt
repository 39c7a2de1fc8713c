-- ===== src/Trace/RoundTrip/Runs.antt =====
-- The turns of `iter_events` on the records of a run of calls.
use sst_sat.Base.{
  ℕ, ◌+◌, ◌≤◌, ◌≡◌, refl, ◌∙◌, List, [], ◌∷◌, ◌++◌, append_assoc, Option, some, none, length,
  length-append, arith,
}
use native.Mathlib.Nat.{zero-add, suc-add}
use sst_sat.Trace.RoundTrip.Turns.{
  IsSound, set-below, length-set, yield_maybe, reader_of, turn-emitted,
}
use sst_sat.Trace.Event.{View, Context, Event}
use sst_sat.Trace.Writer.{
  Writer, Call, mem, tick, enqueue, classify, emit_mem, emitted, after, after_all, records,
}
use sst_sat.Trace.Writer.Promise.{context_after, promised, consider, IsRun}
use sst_sat.Trace.Reader.{Stream, yield_first, events_loop}

after-IsSound :
    (k : Call) (w : Writer) (cs : List Call)
    → IsRun w.last_cycle (k ∷ cs)
    → IsSound w
    → IsSound (after k w)
unfolding after
after-IsSound (mem is_write addr size) w cs h sound = record {
  mapped = sound.mapped;
  nine = length-set w.last_addr (classify w addr) addr ∙ sound.nine;
  below = set-below w.last_addr (classify w addr) addr h.0 sound.below;
}
after-IsSound _ w cs h sound = record {
  mapped = sound.mapped;
  nine = sound.nine;
  below = sound.below;
}

-- The writer and the reader keep the same last tick, and the run goes on from it.
after_synced :
    (k : Call) (w : Writer) (c : Context)
    → c.cycle ≡ w.last_cycle
    → (context_after k c).cycle ≡ (after k w).last_cycle
unfolding after context_after
after_synced (tick next) w c e = refl
after_synced _ w c e = e

after-IsRun :
    (k : Call) (w : Writer) (cs : List Call)
    → IsRun w.last_cycle (k ∷ cs)
    → IsRun (after k w).last_cycle cs
unfolding after
after-IsRun (tick next) w cs h = h.2
after-IsRun (mem is_write addr size) w cs h = h.1
after-IsRun (enqueue var sign reason) w cs h = h.1
after-IsRun _ w cs h = h

ds_map-after : (k : Call) (w : Writer) → (after k w).ds_map ≡ w.ds_map
unfolding after
ds_map-after (mem is_write addr size) w = refl
ds_map-after _ w = refl

events-after : (k : Call) (w : Writer) → (after k w).events ≡ w.events + 1
unfolding after
events-after (mem is_write addr size) w = refl
events-after _ w = refl

pub events-after_all :
    (cs : List Call) (w : Writer) → (after_all cs w).events ≡ w.events + length cs
unfolding after_all
events-after_all [] w = omega arith
events-after_all (k ∷ cs) w = omega (arith, events-after_all cs (after k w), events-after k w)

-- A record has a tag at least.
length-emitted : (k : Call) (w : Writer) → 1 ≤ length (emitted k w)
unfolding emitted emit_mem
length-emitted (mem is_write addr size) w = omega arith
length-emitted _ w = omega arith

pub length-records : (cs : List Call) (w : Writer) → length cs ≤ length (records cs w)
unfolding records
length-records [] w = omega arith
length-records (k ∷ cs) w = omega (
  arith,
  length-append (emitted k w) (records cs (after k w)),
  length-emitted k w,
  length-records cs (after k w),
)

abbrev pub yield_all : List Event → Stream → Stream
yield_all [] t = t
yield_all (e ∷ es) t = yield_first e (yield_all es t)

yield_all-consider :
    (ds_map : ℕ → ℕ) (o : Option Event) (es : List Event) (t : Stream)
    → yield_all (consider ds_map o es) t ≡ yield_maybe o (yield_all es t)
yield_all-consider m none es t = refl
yield_all-consider m (some e) es t = refl

unfoldable pub context_after_all : List Call → Context → Context
context_after_all [] c = c
context_after_all (k ∷ cs) c = context_after_all cs (context_after k c)

-- The records of a run give the promised events, and leave the rest of the buffer.
pub events_loop-records :
    (cs : List Call) (n fuel : ℕ) (w : Writer) (c : Context) (tail : List ℕ)
    → IsSound w
    → c.cycle ≡ w.last_cycle
    → IsRun w.last_cycle cs
    → events_loop n (length cs + fuel) View.all (records cs w ++ tail) (reader_of w c)
      ≡ yield_all
          (promised w.ds_map cs c)
          (events_loop n fuel View.all tail (reader_of (after_all cs w) (context_after_all cs c)))
unfolding records promised after_all context_after_all
events_loop-records [] n fuel w c tail sound synced h = rw zero-add
events_loop-records (k ∷ cs) n fuel w c tail sound synced h =
    rw (suc-add (length cs) fuel, append_assoc (emitted k w) (records cs (after k w)) tail)
      (turn-emitted n (length cs + fuel) w c (records cs (after k w) ++ tail) cs sound synced k h
        ∙ rw
            (events_loop-records cs n fuel (after k w) (context_after k c) tail
              (after-IsSound k w cs h sound) (after_synced k w c synced) (after-IsRun k w cs h))
            (simp (ds_map-after, yield_all-consider)))
