-- ===== src/Trace/Writer.antt =====
-- `TraceWriter` of src/trace_writer.cc and src/trace_writer.h: the bytes that a sequence of calls sends to
-- an open stream. The ring buffer only delays them, so it is left out, and so is a failing write.
pub mod Varint
pub mod Promise
use Prim.Native.Nat.{bit_and, bit_xor}
use sst_sat.Base.{
  ℕ, zero, suc, ◌+◌, ◌-◌, ◌*◌, ◌/◌, ◌%◌, ◌^◌, Bool, Option, none, some, List, [], ◌∷◌, ◌++◌, ◌==◌,
  ltb, set, replicate, get_elem?, if◌then◌else◌,
}
use sst_sat.Base.Int.{ℤ, pos, negsuc, pos_part}
use sst_sat.Trace.Writer.Varint.{write_uvarint, write_svarint}
use mathlib.Core.Option.{get_or}

-- `last_addr_`, `events_`, `ds_map_`, and the `static thread_local` variable of `emitTick`, which is
-- one for all the writers of a thread.
pub record Writer : Type 0 where
  pub ds_map : ℕ → ℕ
  pub last_addr : List ℕ
  pub events : ℕ
  pub last_cycle : ℕ

-- The members of a writer that is opened when the thread's `last_cycle` is known.
unfoldable pub fresh : (ℕ → ℕ) → ℕ → Writer
fresh ds_map last_cycle = record {
  ds_map = ds_map;
  last_addr = replicate 9 0;
  events = 0;
  last_cycle = last_cycle;
}

-- The calls of the solver.
pub data Call : Type 0 where
  mem : Bool → ℕ → ℕ → Call
  phase : ℕ → Call
  level : ℤ → Call
  tick : ℕ → Call
  decision : ℤ → Bool → ℤ → Call
  enqueue : ℤ → Bool → ℤ → Call
  conflict : ℤ → Call
  learn : ℤ → ℤ → ℤ → ℤ → Call
  backtrack : ℤ → ℤ → Call
  restart : ℤ → Call
  reduce : ℤ → ℤ → Call

-- `(uint64_t)(x < 0 ? 0 : x)`
abbrev write_clamped : ℤ → List ℕ
write_clamped x = write_uvarint (pos_part x)

-- `sign ? 1 : 0`
abbrev pub flag : Bool → ℕ
flag b = if b then 1 else 0

unfoldable pub size_class : ℕ → ℕ
size_class size =
    if size == 1
    then 0
    else if size == 2
    then 1
    else if size == 4
    then 2
    else if size == 8
    then 3
    else if size == 16
    then 4
    else if size == 32
    then 5
    else if size == 64
    then 6
    else 7

-- The bit pattern of 64 bits as an `int64_t`.
unfoldable pub signed64 : ℕ → ℤ
signed64 n = if ltb n (2 ^ 63) then pos n else negsuc (2 ^ 64 - n - 1)

-- `(addr >> 28) & 0xF` picks the nibble of the map.
abbrev pub classify : Writer → ℕ → ℕ
classify w addr = w.ds_map (addr / 2 ^ 28 % 16)

-- The slot of `last_addr_`; the map names none past the last one.
abbrev pub slot : List ℕ → ℕ → ℕ
slot addrs ds = get_or (get_elem? addrs ds) 0

-- The packed byte, the address delta and, for an odd size, the size.
unfoldable pub emit_mem : Bool → ℕ → ℕ → Writer → List ℕ
unfolding size_class signed64
emit_mem is_write addr size w =
    let ds = classify w addr in
    let sc = size_class size in
    let delta = signed64 ((addr + 2 ^ 64 - slot w.last_addr ds) % 2 ^ 64) in
    (if is_write then 0x11 else 0x10)
    ∷ (sc * 16 + ds % 16)
    ∷ (write_svarint delta ++ (if sc == 7 then write_uvarint size else []))

-- The bytes of one call, each function's in turn.
unfoldable pub emitted : Call → Writer → List ℕ
emitted (mem is_write addr size) w = emit_mem is_write addr size w
emitted (phase p) w = 0x01 ∷ p ∷ []
emitted (level l) w = 0x02 ∷ write_clamped l
emitted (tick cycle) w = 0x00 ∷ write_uvarint ((cycle + 2 ^ 64 - w.last_cycle) % 2 ^ 64)
emitted (decision var sign new_level) w =
    0x20 ∷ (write_clamped var ++ (flag sign ∷ write_clamped new_level))
emitted (enqueue var sign reason) w =
    0x21 ∷ (write_clamped var ++ (flag sign ∷ write_svarint reason))
emitted (conflict cref) w = 0x22 ∷ write_clamped cref
emitted (learn lbd clause_size bt_level new_cref) w =
    0x23
    ∷ (write_clamped lbd
        ++ (write_clamped clause_size ++ (write_clamped bt_level ++ write_clamped new_cref)))
emitted (backtrack from to) w = 0x24 ∷ (write_clamped from ++ write_clamped to)
emitted (restart idx) w = 0x25 ∷ write_clamped idx
emitted (reduce removed kept) w = 0x26 ∷ (write_clamped removed ++ write_clamped kept)

-- What a call leaves in the members: `++events_`, and the state of the deltas.
unfoldable pub after : Call → Writer → Writer
after (mem is_write addr size) w = record w {
  last_addr = set w.last_addr (classify w addr) addr;
  events = w.events + 1;
}
after (tick cycle) w = record w { last_cycle = cycle; events = w.events + 1 }
after _ w = record w { events = w.events + 1 }

-- The low `k` bytes of a number, lowest first.
unfoldable pub little_endian : ℕ → ℕ → List ℕ
little_endian zero v = []
little_endian (suc k) v = v % 256 ∷ little_endian k (v / 256)

-- One bit of `table`.
crc_bit : ℕ → ℕ
crc_bit c = if c % 2 == 1 then bit_xor 0xedb88320 (c / 2) else c / 2

crc_table : ℕ → ℕ
unfolding crc_bit
crc_table i = crc_bit (crc_bit (crc_bit (crc_bit (crc_bit (crc_bit (crc_bit (crc_bit i)))))))

-- crc32_update
unfoldable pub crc32_update : ℕ → List ℕ → ℕ
unfolding crc_table
crc32_update crc [] = crc
crc32_update crc (b ∷ bytes) =
    crc32_update (bit_xor (crc_table (bit_and (bit_xor crc b) 0xff)) (crc / 2 ^ 8)) bytes

-- `close`: the FINISH record, with the checksum of the bytes before it.
unfoldable pub closing : ℕ → ℕ → ℕ → List ℕ
closing total_cycles events crc =
    0x7f ∷ (little_endian 8 total_cycles ++ (little_endian 8 events ++ little_endian 4 crc))

-- The records of a run of calls, and the members after it.
unfoldable pub records : List Call → Writer → List ℕ
records [] w = []
records (c ∷ cs) w = emitted c w ++ records cs (after c w)

unfoldable pub after_all : List Call → Writer → Writer
after_all [] w = w
after_all (c ∷ cs) w = after_all cs (after c w)

-- `crc_` starts at all ones and is inverted at the end.
unfoldable pub checksum : List ℕ → ℕ
checksum bytes = bit_xor (crc32_update 0xffffffff bytes) 0xffffffff

-- What stands in the file behind the header, after a run of calls and `close`.
unfoldable pub stream : ℕ → List Call → Writer → List ℕ
stream total_cycles cs w =
    records cs w ++ closing total_cycles (after_all cs w).events (checksum (records cs w))
