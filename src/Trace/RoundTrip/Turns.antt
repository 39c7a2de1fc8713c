-- ===== src/Trace/RoundTrip/Turns.antt =====
-- One turn of `iter_events` on the record of one call.
use sst_sat.Base.{
  ℕ, zero, suc, ◌+◌, ◌-◌, ◌/◌, ◌%◌, ◌^◌, ◌≤◌, ◌<◌, ◌≡◌, refl, ◌∙◌, Bool, true, false, List, [], ◌∷◌,
  ◌++◌, Option, some, none, map, length, set, All, arith,
}
use sst_sat.Base.Int.{pos}
use sst_sat.Base.Result.{ok}
use sst_sat.Trace.Event.{View, Context, Event}
use sst_sat.Trace.Writer.{
  Writer, Call, mem, phase, level, tick, decision, enqueue, conflict, learn, backtrack, restart,
  reduce, slot, emit_mem, emitted, after,
}
use sst_sat.Trace.Writer.Promise.{event_of, context_after, IsRun}
use sst_sat.Trace.Reader.{Reader, Stream, go, yield, yield_first, turn, events_loop}
use sst_sat.Trace.Reader.Records.{
  on_tick-write, on_level-write, on_phase-write, on_decide-write, on_enqueue-write,
  on_conflict-write, on_learn-write, on_backtrack-write, on_restart-write, on_reduce-write,
}
use sst_sat.Trace.Reader.MemRecord.{on_mem-write}

-- The map names the nine slots, whose addresses have the sign bit clear.
pub record IsSound (w : Writer) : Type 0 where
  pub mapped : (nibble : ℕ) → w.ds_map nibble < 9
  pub nine : length w.last_addr ≡ 9
  pub below : All (λ a. a < 2 ^ 63) w.last_addr

abbrev pub yield_maybe : Option Event → Stream → Stream
yield_maybe none t = t
yield_maybe (some e) t = yield_first e t

abbrev pub reader_of : Writer → Context → Reader
reader_of w c = record { context = c; last_addr = map pos w.last_addr }

slot-below :
    (addrs : List ℕ) (ds : ℕ)
    → ds < length addrs
    → All (λ a. a < 2 ^ 63) addrs
    → slot addrs ds < 2 ^ 63
slot-below [] ds h k = absurd (omega arith)
slot-below (a ∷ addrs) zero h k = k.0
slot-below (a ∷ addrs) (suc ds) h k = slot-below addrs ds (omega arith) k.1

pub set-below :
    (addrs : List ℕ) (ds a : ℕ)
    → a < 2 ^ 63
    → All (λ a. a < 2 ^ 63) addrs
    → All (λ a. a < 2 ^ 63) (set addrs ds a)
set-below [] ds a h k = tt
set-below (b ∷ addrs) zero a h k = (h, k.1)
set-below (b ∷ addrs) (suc ds) a h k = (k.0, set-below addrs ds a h k.1)

pub length-set : (addrs : List ℕ) (ds a : ℕ) → length (set addrs ds a) ≡ length addrs
length-set [] ds a = refl
length-set (b ∷ addrs) zero a = refl
length-set (b ∷ addrs) (suc ds) a = omega (arith, length-set addrs ds a)

tick_delta :
    (last next : ℕ) → last ≤ next → next < 2 ^ 64 → last + (next + 2 ^ 64 - last) % 2 ^ 64 ≡ next
tick_delta last next h k = omega arith

loop-yield :
    (n fuel tag : ℕ) (view : View) (buf rest : List ℕ) (s s' : Reader) (e : Event)
    → turn n tag view buf s ≡ ok (yield e s' rest)
    → events_loop n (suc fuel) view (tag ∷ buf) s ≡ yield_first e (events_loop n fuel view rest s')
unfolding events_loop
loop-yield n fuel tag view buf rest s s' e h = rw (h, events_loop)

pub loop-go :
    (n fuel tag : ℕ) (view : View) (buf rest : List ℕ) (s s' : Reader)
    → turn n tag view buf s ≡ ok (go s' rest)
    → events_loop n (suc fuel) view (tag ∷ buf) s ≡ events_loop n fuel view rest s'
unfolding events_loop
loop-go n fuel tag view buf rest s s' h = rw (h, events_loop)

-- One turn of the reader on the record of one call.
module _ (n fuel : ℕ) (w : Writer) (c : Context) (rest : List ℕ) (cs : List Call)
    (sound : IsSound w) (synced : c.cycle ≡ w.last_cycle) where
  pub mem_turn :
      (is_write : Bool) (addr size : ℕ)
      → addr < 2 ^ 63
      → events_loop n
          (suc fuel)
          View.all
          (emitted (mem is_write addr size) w ++ rest)
          (reader_of w c)
        ≡ yield_maybe
            (event_of w.ds_map (mem is_write addr size) c)
            (events_loop n fuel View.all rest (reader_of (after (mem is_write addr size) w) c))
  unfolding turn emitted event_of after emit_mem
  mem_turn true addr size h = loop-yield n fuel _ _ _ _ _ _ _ (
      on_mem-write w (reader_of w c) rest true addr size refl (sound.mapped _) sound.nine
        (slot-below _ _ (omega (arith, sound.mapped (addr / 2 ^ 28 % 16), sound.nine)) sound.below)
        h)
  mem_turn false addr size h = loop-yield n fuel _ _ _ _ _ _ _ (
      on_mem-write w (reader_of w c) rest false addr size refl (sound.mapped _) sound.nine
        (slot-below _ _ (omega (arith, sound.mapped (addr / 2 ^ 28 % 16), sound.nine)) sound.below)
        h)

  pub turn-emitted :
      (k : Call)
      → IsRun w.last_cycle (k ∷ cs)
      → events_loop n (suc fuel) View.all (emitted k w ++ rest) (reader_of w c)
        ≡ yield_maybe
            (event_of w.ds_map k c)
            (events_loop n fuel View.all rest (reader_of (after k w) (context_after k c)))
  unfolding turn emitted event_of context_after after
  turn-emitted (mem is_write addr size) h = mem_turn is_write addr size h.0
  turn-emitted (phase p) h = loop-yield n fuel _ _ _ _ _ _ _ (on_phase-write _ _ _)
  turn-emitted (level l) h = loop-go n fuel _ _ _ _ _ _ (on_level-write _ _ _)
  turn-emitted (tick next) h =
      loop-go n fuel _ _ _ _ _ _ (on_tick-write _ _ _)
      ∙ rw (synced, tick_delta w.last_cycle next h.0 h.1)
  turn-emitted (decision var sign new_level) h =
      loop-yield n fuel _ _ _ _ _ _ _ (on_decide-write _ _ _ _ _)
  turn-emitted (enqueue var sign reason) h =
      loop-yield n fuel _ _ _ _ _ _ _ (on_enqueue-write _ _ _ _ _ h.0)
  turn-emitted (conflict cref) h = loop-yield n fuel _ _ _ _ _ _ _ (on_conflict-write _ _ _)
  turn-emitted (learn lbd clause_size bt_level new_cref) h =
      loop-yield n fuel _ _ _ _ _ _ _ (on_learn-write _ _ _ _ _ _)
  turn-emitted (backtrack from to) h = loop-yield n fuel _ _ _ _ _ _ _ (on_backtrack-write _ _ _ _)
  turn-emitted (restart idx) h = loop-yield n fuel _ _ _ _ _ _ _ (on_restart-write _ _ _)
  turn-emitted (reduce removed kept) h = loop-yield n fuel _ _ _ _ _ _ _ (on_reduce-write _ _ _ _)
