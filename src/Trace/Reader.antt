-- ===== src/Trace/Reader.antt =====
-- `iter_events` of tools/trace_lib.py after the header: one function for each branch on the tag, the
-- dispatch, and the loop.
pub mod Records
pub mod Views
pub mod Progress
pub mod MemRecord
use Prim.Native.Nat.{bit_and}
use sst_sat.Base.{
  ℕ, zero, suc, ◌+◌, ◌-◌, ◌*◌, ◌/◌, ◌^◌, Bool, ◌||◌, ◌&&◌, List, [], ◌∷◌, Option, none, some, ◌==◌,
  length, get_elem?, set, take, drop, replicate, if◌then◌else◌,
}
use sst_sat.Base.Int.{ℤ, pos, ◌+ℤ◌}
use sst_sat.Base.Result.{Result, ok, raise, ◌>>=◌}
use sst_sat.Trace.Error.{Error, index_error, unknown_tag}
use sst_sat.Trace.Varint.{read_byte, uvarint, svarint}
use sst_sat.Trace.Event.{View, Context, Event, is_in, phase_name, ds_name}

-- `cur_cycle`, `cur_phase`, `cur_level`, `last_addr`
pub record Reader : Type 0 where
  pub context : Context
  pub last_addr : List ℤ

unfoldable pub init : Reader
init = record {
  context = record { cycle = 0; phase = 0; level = 0 };
  last_addr = replicate 9 (pos 0);
}

-- What one turn of the loop does: `continue` with or without a `yield` before it, or `return`.
-- The lists are the rest of the buffer.
pub data Turn : Type 0 where
  go : Reader → List ℕ → Turn
  yield : Event → Reader → List ℕ → Turn
  stop : List Event → Turn

abbrev pub Branch : Type 0
Branch = View → List ℕ → Reader → Result Error Turn

-- `if shown: yield e`, then `continue`
abbrev pub emit : Bool → Event → Reader → List ℕ → Turn
emit shown e s rest = if shown then yield e s rest else go s rest

unfoldable pub on_tick : Branch
on_tick view buf s = do
  (delta, rest) ← uvarint buf
  ok (go (record s { context = record s.context { cycle = s.context.cycle + delta } }) rest)

unfoldable pub on_phase : Branch
on_phase view buf s = do
  (p, rest) ← read_byte buf
  let c : Context = record s.context { phase = p }
  ok (
      emit (is_in view (View.all ∷ View.phase ∷ [])) (Event.phase c (phase_name p))
        (record s { context = c }) rest)

unfoldable pub on_level : Branch
on_level view buf s = do
  (l, rest) ← uvarint buf
  ok (go (record s { context = record s.context { level = l } }) rest)

-- SIZE_CLASSES, whose last entry is None
abbrev size_classes : List (Option ℕ)
size_classes = some 1 ∷ some 2 ∷ some 4 ∷ some 8 ∷ some 16 ∷ some 32 ∷ some 64 ∷ none ∷ []

-- `size = SIZE_CLASSES[sc]`, and the explicit size where that is None
unfoldable pub read_size : ℕ → List ℕ → Result Error (ℕ × List ℕ)
read_size sc buf = elim (get_elem? size_classes sc) [
  | none ↦ raise index_error
  | some (some size) ↦ ok (size, buf)
  | some none ↦ uvarint buf
]

-- `last_addr[ds] += delta`, and the new value
unfoldable pub move_addr : ℕ → ℤ → List ℤ → Result Error (ℤ × List ℤ)
move_addr ds delta addrs = elim (get_elem? addrs ds) [
  | none ↦ raise index_error
  | some a ↦ ok (a +ℤ delta, set addrs ds (a +ℤ delta))
]

-- `view == 'memory' or view == 'all'`, or `view == 'clause' and ds in CLAUSE_DS_IDS`
unfoldable pub shows_mem : View → ℕ → Bool
shows_mem view ds =
    is_in view (View.memory ∷ View.all ∷ [])
    || (is_in view (View.clause ∷ []) && ((ds == 5) || (ds == 6)))

unfoldable pub on_mem : Bool → Branch
on_mem is_write view buf s = do
  (packed, buf1) ← read_byte buf
  let sc = bit_and (packed / 2 ^ 4) 0x7
  let ds = bit_and packed 0xf
  (delta, buf2) ← svarint buf1
  (addr, addrs) ← move_addr ds delta s.last_addr
  (size, rest) ← read_size sc buf2
  ok (
      emit (shows_mem view ds)
        (Event.mem is_write s.context (phase_name s.context.phase) ds (ds_name ds) addr size)
        (record s { last_addr = addrs }) rest)

unfoldable pub on_decide : Branch
on_decide view buf s = do
  (var, buf1) ← uvarint buf
  (sign, buf2) ← read_byte buf1
  (new_level, rest) ← uvarint buf2
  ok (
      emit (is_in view (View.all ∷ View.algo ∷ View.literal ∷ []))
        (Event.decide s.context var sign new_level) s rest)

unfoldable pub on_enqueue : Branch
on_enqueue view buf s = do
  (var, buf1) ← uvarint buf
  (sign, buf2) ← read_byte buf1
  (reason, rest) ← svarint buf2
  ok (
      emit (is_in view (View.all ∷ View.algo ∷ View.literal ∷ []))
        (Event.enqueue s.context var sign reason) s rest)

unfoldable pub on_conflict : Branch
on_conflict view buf s = do
  (cref, rest) ← uvarint buf
  ok (
      emit (is_in view (View.all ∷ View.algo ∷ View.clause ∷ [])) (Event.conflict s.context cref) s
        rest)

unfoldable pub on_learn : Branch
on_learn view buf s = do
  (lbd, buf1) ← uvarint buf
  (clause_size, buf2) ← uvarint buf1
  (bt_level, buf3) ← uvarint buf2
  (new_cref, rest) ← uvarint buf3
  ok (
      emit (is_in view (View.all ∷ View.algo ∷ View.clause ∷ []))
        (Event.learn s.context lbd clause_size bt_level new_cref) s rest)

unfoldable pub on_backtrack : Branch
on_backtrack view buf s = do
  (frm, buf1) ← uvarint buf
  (to, rest) ← uvarint buf1
  ok (emit (is_in view (View.all ∷ View.algo ∷ [])) (Event.backtrack s.context frm to) s rest)

unfoldable pub on_restart : Branch
on_restart view buf s = do
  (idx, rest) ← uvarint buf
  ok (emit (is_in view (View.all ∷ View.algo ∷ [])) (Event.restart s.context idx) s rest)

unfoldable pub on_reduce : Branch
on_reduce view buf s = do
  (removed, buf1) ← uvarint buf
  (kept, rest) ← uvarint buf1
  ok (
      emit (is_in view (View.all ∷ View.algo ∷ View.clause ∷ []))
        (Event.reduce s.context removed kept) s rest)

-- int.from_bytes(buf, 'little')
unfoldable pub from_bytes : List ℕ → ℕ
from_bytes [] = 0
from_bytes (b ∷ bs) = b + 256 * from_bytes bs

-- A slice past the end of the buffer is short, and nothing is raised.
unfoldable pub on_finish : Branch
unfolding from_bytes
on_finish view buf s =
    let total_cycles = from_bytes (take 8 buf) in
    let events_written = from_bytes (take 8 (drop 8 buf)) in
    let crc32 = from_bytes (take 4 (drop 16 buf)) in
    ok (
      stop (
        if is_in view (View.all ∷ [])
        then Event.finish total_cycles events_written crc32 ∷ []
        else []))

-- The body of the loop behind `tag = buf[i]; i += 1`. `n` is `len(buf)`, so that the tag's offset
-- `i - 1` is `n` less what is left with the tag.
unfoldable pub turn : ℕ → ℕ → Branch
turn n tag view buf s =
    if tag == 0x00
    then on_tick view buf s
    else if tag == 0x01
    then on_phase view buf s
    else if tag == 0x02
    then on_level view buf s
    else if (tag == 0x10) || (tag == 0x11)
    then on_mem (tag == 0x11) view buf s
    else if tag == 0x20
    then on_decide view buf s
    else if tag == 0x21
    then on_enqueue view buf s
    else if tag == 0x22
    then on_conflict view buf s
    else if tag == 0x23
    then on_learn view buf s
    else if tag == 0x24
    then on_backtrack view buf s
    else if tag == 0x25
    then on_restart view buf s
    else if tag == 0x26
    then on_reduce view buf s
    else if tag == 0x7f
    then on_finish view buf s
    else raise (unknown_tag tag (n - suc (length buf)))

-- How a generator ends. `stuck` is no Python outcome: the fuel of the loop ran out.
pub data Ending : Type 0 where
  done : Ending
  raised : Error → Ending
  stuck : Ending

-- What a consumer of a generator sees: the events that it yields, and then how it ends.
pub record Stream : Type 0 where
  pub events : List Event
  pub ending : Ending

abbrev pub yield_first : Event → Stream → Stream
yield_first e t = record { events = e ∷ t.events; ending = t.ending }

abbrev ended : List Event → Ending → Stream
ended es e = record { events = es; ending = e }

-- `while i < n`
unfoldable pub events_loop : ℕ → ℕ → View → List ℕ → Reader → Stream
events_loop n fuel view [] s = ended [] done
events_loop n zero view (tag ∷ buf) s = ended [] stuck
events_loop n (suc fuel) view (tag ∷ buf) s = elim (turn n tag view buf s) [
  | raise e ↦ ended [] (raised e)
  | ok (go s' rest) ↦ events_loop n fuel view rest s'
  | ok (yield e s' rest) ↦ yield_first e (events_loop n fuel view rest s')
  | ok (stop es) ↦ ended es done
]

-- Each turn takes a byte at least, so `len(buf)` turns are enough.
unfoldable pub body_events : View → List ℕ → Stream
unfolding events_loop init
body_events view buf = events_loop (length buf) (length buf) view buf init
