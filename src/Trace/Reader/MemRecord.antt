-- ===== src/Trace/Reader/MemRecord.antt =====
-- The branch of `iter_events` on memory records, on the record that `emitMem` makes.
use Prim.Native.Nat.{bit_and}
use sst_sat.Base.{
  ℕ, zero, suc, ◌+◌, ◌-◌, ◌*◌, ◌/◌, ◌%◌, ◌^◌, ◌<◌, ◌≡◌, refl, Bool, List, [], ◌∷◌, ◌++◌,
  append_assoc, some, map, length, get_elem?, set, ◌==◌, if◌then◌else◌, arith,
}
use sst_sat.Base.Bits.{low_three, low_four}
use sst_sat.Base.Int.{ℤ, pos, ◌+ℤ◌}
use sst_sat.Base.Result.{ok}
use sst_sat.Trace.Event.{View, Event, phase_name, ds_name}
use sst_sat.Trace.Varint.{read_byte}
use sst_sat.Trace.Varint.RoundTrip.{uvarint-write, svarint-write}
use sst_sat.Trace.Writer.Varint.{write_uvarint, write_svarint, IsInt64}
use sst_sat.Trace.Writer.{Writer, size_class, signed64, slot, classify}
use sst_sat.Trace.Reader.{Reader, yield, read_size, move_addr, shows_mem, on_mem}

abbrev size_field : ℕ → List ℕ
size_field size = if size_class size == 7 then write_uvarint size else []

-- Every size is read back, by its class or from the number behind the delta.
read_size-size_class :
    (size : ℕ) (rest : List ℕ)
    → read_size (size_class size) (size_field size ++ rest) ≡ ok (size, rest)
unfolding read_size size_class
read_size-size_class size rest = ground (arith, uvarint-write size rest)

size_class-lt : (size : ℕ) → size_class size < 8
unfolding size_class
size_class-lt size = ground arith

-- The delta of two addresses below 2^63 fits, and takes the one to the other.
delta_lem :
    (a b : ℕ)
    → a < 2 ^ 63
    → b < 2 ^ 63
    → IsInt64 (signed64 ((b + 2 ^ 64 - a) % 2 ^ 64))
      × (pos a +ℤ signed64 ((b + 2 ^ 64 - a) % 2 ^ 64) ≡ pos b)
unfolding signed64 ◌+ℤ◌
delta_lem a b h k = (ground arith, ground arith)

get_elem?-slot :
    (addrs : List ℕ) (ds : ℕ)
    → ds < length addrs
    → get_elem? (map pos addrs) ds ≡ some (pos (slot addrs ds))
get_elem?-slot [] ds h = absurd (omega arith)
get_elem?-slot (a ∷ addrs) zero h = refl
get_elem?-slot (a ∷ addrs) (suc ds) h = get_elem?-slot addrs ds (omega arith)

set-map :
    (addrs : List ℕ) (ds addr : ℕ) → set (map pos addrs) ds (pos addr) ≡ map pos (set addrs ds addr)
set-map [] ds addr = refl
set-map (a ∷ addrs) zero addr = refl
set-map (a ∷ addrs) (suc ds) addr = rw (set-map addrs ds addr)

move_addr-map :
    (addrs : List ℕ) (ds addr : ℕ) (delta : ℤ)
    → ds < length addrs
    → pos (slot addrs ds) +ℤ delta ≡ pos addr
    → move_addr ds delta (map pos addrs) ≡ ok (pos addr, map pos (set addrs ds addr))
unfolding move_addr
move_addr-map addrs ds addr delta h e =
    ground (arith, get_elem?-slot addrs ds h, e, set-map addrs ds addr)

-- The two fields of the packed byte.
packed_fields :
    (sc ds : ℕ)
    → sc < 8
    → ds < 9
    → (bit_and ((sc * 16 + ds % 16) / 2 ^ 4) 0x7 ≡ sc) × (bit_and (sc * 16 + ds % 16) 0xf ≡ ds)
packed_fields sc ds h k = (
  omega (arith, low_three ((sc * 16 + ds % 16) / 2 ^ 4) (omega arith)),
  omega (arith, low_four (sc * 16 + ds % 16) (omega arith)),
)

module _ (w : Writer) (s : Reader) (rest : List ℕ) where
  pub on_mem-write :
      (is_write : Bool) (addr size : ℕ)
      → s.last_addr ≡ map pos w.last_addr
      → classify w addr < 9
      → length w.last_addr ≡ 9
      → slot w.last_addr (classify w addr) < 2 ^ 63
      → addr < 2 ^ 63
      → on_mem is_write View.all
          ((size_class size * 16 + classify w addr % 16)
            ∷ ((write_svarint
                    (signed64 ((addr + 2 ^ 64 - slot w.last_addr (classify w addr)) % 2 ^ 64))
                  ++ size_field size)
                ++ rest))
          s
        ≡ ok (
            yield
              (Event.mem is_write s.context
                (phase_name s.context.phase)
                (classify w addr)
                (ds_name (classify w addr))
                (pos addr)
                size)
              (record s { last_addr = map pos (set w.last_addr (classify w addr) addr) })
              rest)
  unfolding on_mem read_byte shows_mem
  on_mem-write is_write addr size same fits nine before below =
      let (fit, sum) = delta_lem (slot w.last_addr (classify w addr)) addr before below in
      let (sc, ds) = packed_fields (size_class size) (classify w addr) (size_class-lt size) fits in
      simp
        (
          append_assoc,
          sc,
          ds,
          same,
          svarint-write _ (size_field size ++ rest) fit,
          move_addr-map w.last_addr (classify w addr) addr _ (omega arith) sum,
          read_size-size_class,
        )
        refl
