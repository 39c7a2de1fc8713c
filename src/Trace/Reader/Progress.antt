-- ===== src/Trace/Reader/Progress.antt =====
-- Every turn of `iter_events` takes bytes off the buffer, so its loop ends.
use Prim.Native.Nat.{bit_and, bit_or}
use sst_sat.Base.{◌*◌, ◌^◌, ◌==◌}
use sst_sat.Base.{ℕ, zero, suc, ◌+◌, ◌≤◌, ◌≡◌, ◌≢◌, refl, Bool, List, [], ◌∷◌, length, arith}
use sst_sat.Base.Result.{Result, ok, raise}
use sst_sat.Trace.Error.{Error}
use sst_sat.Trace.Event.{View}
use sst_sat.Trace.Varint.{read_byte, uvarint_loop, uvarint, svarint}
use sst_sat.Trace.Reader.{
  init, Reader, Turn, go, yield, stop, stuck, read_size, on_tick, on_phase, on_level, on_mem,
  on_decide, on_enqueue, on_conflict, on_learn, on_backtrack, on_restart, on_reduce, on_finish,
  turn, events_loop, body_events,
}

-- The bytes that a read leaves.
abbrev left : {A : Type 0} → Result Error (A × List ℕ) → ℕ
left (ok (a, rest)) = length rest
left (raise e) = 0

abbrev turn_left : Result Error Turn → ℕ
turn_left (ok (go s rest)) = length rest
turn_left (ok (yield e s rest)) = length rest
turn_left (ok (stop es)) = 0
turn_left (raise e) = 0

left-read_byte : (buf : List ℕ) → left (read_byte buf) ≤ length buf
unfolding read_byte
left-read_byte [] = omega arith
left-read_byte (b ∷ buf) = omega arith

left-uvarint_loop : (buf : List ℕ) (r s : ℕ) → left (uvarint_loop buf r s) ≤ length buf
unfolding uvarint_loop
left-uvarint_loop [] r s = omega arith
left-uvarint_loop (b ∷ buf) r s =
    ground (arith, left-uvarint_loop buf (bit_or r (bit_and b 0x7f * 2 ^ s)) (s + 7))

left-uvarint : (buf : List ℕ) → left (uvarint buf) ≤ length buf
unfolding uvarint
left-uvarint buf = left-uvarint_loop buf 0 0

left-svarint : (buf : List ℕ) → left (svarint buf) ≤ length buf
unfolding svarint
left-svarint buf = ground (arith, left-uvarint buf)

left-on_decide : (v : View) (buf : List ℕ) (s : Reader) → turn_left (on_decide v buf s) ≤ length buf
unfolding on_decide
left-on_decide v buf s = grind (arith, left-uvarint, left-read_byte)

left-on_tick : (v : View) (buf : List ℕ) (s : Reader) → turn_left (on_tick v buf s) ≤ length buf
unfolding on_tick
left-on_tick v buf s = grind (arith, left-uvarint, left-svarint, left-read_byte)

left-on_phase : (v : View) (buf : List ℕ) (s : Reader) → turn_left (on_phase v buf s) ≤ length buf
unfolding on_phase
left-on_phase v buf s = grind (arith, left-uvarint, left-svarint, left-read_byte)

left-on_level : (v : View) (buf : List ℕ) (s : Reader) → turn_left (on_level v buf s) ≤ length buf
unfolding on_level
left-on_level v buf s = grind (arith, left-uvarint, left-svarint, left-read_byte)

left-on_enqueue :
    (v : View) (buf : List ℕ) (s : Reader) → turn_left (on_enqueue v buf s) ≤ length buf
unfolding on_enqueue
left-on_enqueue v buf s = grind (arith, left-uvarint, left-svarint, left-read_byte)

left-on_conflict :
    (v : View) (buf : List ℕ) (s : Reader) → turn_left (on_conflict v buf s) ≤ length buf
unfolding on_conflict
left-on_conflict v buf s = grind (arith, left-uvarint, left-svarint, left-read_byte)

left-on_learn : (v : View) (buf : List ℕ) (s : Reader) → turn_left (on_learn v buf s) ≤ length buf
unfolding on_learn
left-on_learn v buf s = grind (arith, left-uvarint, left-svarint, left-read_byte)

left-on_backtrack :
    (v : View) (buf : List ℕ) (s : Reader) → turn_left (on_backtrack v buf s) ≤ length buf
unfolding on_backtrack
left-on_backtrack v buf s = grind (arith, left-uvarint, left-svarint, left-read_byte)

left-on_restart :
    (v : View) (buf : List ℕ) (s : Reader) → turn_left (on_restart v buf s) ≤ length buf
unfolding on_restart
left-on_restart v buf s = grind (arith, left-uvarint, left-svarint, left-read_byte)

left-on_reduce : (v : View) (buf : List ℕ) (s : Reader) → turn_left (on_reduce v buf s) ≤ length buf
unfolding on_reduce
left-on_reduce v buf s = grind (arith, left-uvarint, left-svarint, left-read_byte)

left-on_finish : (v : View) (buf : List ℕ) (s : Reader) → turn_left (on_finish v buf s) ≤ length buf
unfolding on_finish
left-on_finish v buf s = grind (arith, left-uvarint, left-svarint, left-read_byte)

left-read_size : (sc : ℕ) (buf : List ℕ) → left (read_size sc buf) ≤ length buf
unfolding read_size
left-read_size sc buf = ground (arith, left-uvarint buf)

left-on_mem :
    (w : Bool) (v : View) (buf : List ℕ) (s : Reader) → turn_left (on_mem w v buf s) ≤ length buf
unfolding on_mem
left-on_mem w v buf s = grind (arith, left-svarint, left-read_byte, left-read_size)

left-turn :
    (n tag : ℕ) (v : View) (buf : List ℕ) (s : Reader) → turn_left (turn n tag v buf s) ≤ length buf
unfolding turn
left-turn n tag v buf s = ground (
  arith,
  left-on_tick v buf s,
  left-on_phase v buf s,
  left-on_level v buf s,
  left-on_decide v buf s,
  left-on_enqueue v buf s,
  left-on_conflict v buf s,
  left-on_learn v buf s,
  left-on_backtrack v buf s,
  left-on_restart v buf s,
  left-on_reduce v buf s,
  left-on_finish v buf s,
  left-on_mem (tag == 0x11) v buf s,
)

-- One turn, on each of its outcomes.
turn-ne-stuck :
    (n fuel tag : ℕ) (v : View) (buf : List ℕ) (s : Reader) (r : Result Error Turn)
    → turn n tag v buf s ≡ r
    → turn_left r ≤ fuel
    → ((rest : List ℕ) (s' : Reader)
        → length rest ≤ fuel
        → (events_loop n fuel v rest s').ending ≢ stuck)
    → (events_loop n (suc fuel) v (tag ∷ buf) s).ending ≢ stuck
unfolding events_loop
turn-ne-stuck n fuel tag v buf s (raise e) h k ih = rw (h, events_loop) (λ p. cc)
turn-ne-stuck n fuel tag v buf s (ok (go s' rest)) h k ih = rw (h, events_loop) (ih rest s' k)
turn-ne-stuck n fuel tag v buf s (ok (yield e s' rest)) h k ih = rw (h, events_loop) (ih rest s' k)
turn-ne-stuck n fuel tag v buf s (ok (stop es)) h k ih = rw (h, events_loop) (λ p. cc)

events_loop-ne-stuck :
    (n fuel : ℕ) (v : View) (buf : List ℕ) (s : Reader)
    → length buf ≤ fuel
    → (events_loop n fuel v buf s).ending ≢ stuck
events_loop-ne-stuck n fuel v [] s h = unfold events_loop in λ p. cc
events_loop-ne-stuck n zero v (tag ∷ buf) s h = absurd (omega arith)
events_loop-ne-stuck n (suc fuel) v (tag ∷ buf) s h =
    turn-ne-stuck n fuel tag v buf s _ refl (omega (arith, left-turn n tag v buf s))
      (λ rest s' k. events_loop-ne-stuck n fuel v rest s' k)

-- On any bytes and in any view the loop of `iter_events` ends: it yields finitely many events and then
-- finishes or raises, and never runs out of the turns that the number of the bytes allows.
pub body_events-ne-stuck : (v : View) (buf : List ℕ) → (body_events v buf).ending ≢ stuck
unfolding body_events
body_events-ne-stuck v buf = events_loop-ne-stuck (length buf) (length buf) v buf init (omega arith)
