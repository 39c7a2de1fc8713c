-- ===== src/Trace/Varint/RoundTrip.antt =====
-- `_uvarint` reads back what `writeUVarint` wrote, and `_svarint` what `writeSVarint` wrote.
use sst_sat.Base.{ℕ, zero, suc, ◌+◌, ◌*◌, ◌/◌, ◌%◌, ◌^◌, ◌≤◌, ◌<◌, ◌≡◌, ap, List, ◌∷◌, ◌++◌, arith}
use sst_sat.Base.Bits.{low_seven, eighth, with_eighth, bit_or_above}
use sst_sat.Base.Int.{ℤ, pos, negsuc}
use sst_sat.Base.Result.{ok}
use sst_sat.Trace.Varint.{uvarint_loop, uvarint, unzigzag, svarint}
use sst_sat.Trace.Writer.Varint.{write_uvarint_loop, write_uvarint, zigzag, write_svarint, IsInt64}
use native.Mathlib.Nat.{div-add-mod}
use native.Mathlib.Numerals.{towards_suc}

-- The last byte of a number.
last_byte :
    (v r s : ℕ) (rest : List ℕ)
    → v < 128
    → r < 2 ^ s
    → uvarint_loop (v ∷ rest) r s ≡ ok (r + v * 2 ^ s, rest)
unfolding uvarint_loop
last_byte v r s rest hv hr = ground (arith, low_seven v, eighth v, bit_or_above s r v)

-- A byte with its eighth bit set.
inner_byte :
    (g r s : ℕ) (rest : List ℕ)
    → g < 128
    → r < 2 ^ s
    → uvarint_loop ((g + 128) ∷ rest) r s ≡ uvarint_loop rest (r + g * 2 ^ s) (s + 7)
unfolding uvarint_loop
inner_byte g r s rest hg hr =
    ground (arith, low_seven (g + 128), eighth (g + 128), bit_or_above s r g)

seven_more : (s : ℕ) → 2 ^ (s + 7) ≡ 128 * 2 ^ s
seven_more s = simp towards_suc (omega arith)

groups : (v s : ℕ) → v % 128 * 2 ^ s + v / 128 * 2 ^ (s + 7) ≡ v * 2 ^ s
groups v s = omega (
  arith,
  ap (λ (t : ℕ). t * 2 ^ s) (div-add-mod v 128),
  ap (λ (t : ℕ). v / 128 * t) (seven_more s),
)

below_next : (g r s : ℕ) → g < 128 → r < 2 ^ s → r + g * 2 ^ s < 2 ^ (s + 7)
below_next g r s hg hr = rw (seven_more s) (grind arith)

uvarint_loop-write :
    (fuel v r s : ℕ) (rest : List ℕ)
    → v ≤ fuel
    → r < 2 ^ s
    → uvarint_loop (write_uvarint_loop fuel v ++ rest) r s ≡ ok (r + v * 2 ^ s, rest)
unfolding write_uvarint_loop
uvarint_loop-write zero v r s rest hf hr = ground (arith, last_byte v r s rest)
uvarint_loop-write (suc fuel) v r s rest hf hr = ground (
  arith,
  last_byte v r s rest,
  with_eighth (v % 256),
  inner_byte (v % 128) r s (write_uvarint_loop fuel (v / 128) ++ rest),
  below_next (v % 128) r s,
  groups v s,
  uvarint_loop-write fuel (v / 128) (r + v % 128 * 2 ^ s) (s + 7) rest,
)

-- Whatever follows a number that `writeUVarint` wrote, `_uvarint` returns the number and stops behind it.
pub uvarint-write : (v : ℕ) (rest : List ℕ) → uvarint (write_uvarint v ++ rest) ≡ ok (v, rest)
unfolding uvarint write_uvarint
uvarint-write v rest = ground (arith, uvarint_loop-write v v 0 0 rest)

pub unzigzag-zigzag : (z : ℤ) → IsInt64 z → unzigzag (zigzag z) ≡ z
unfolding unzigzag zigzag
unzigzag-zigzag (pos n) h = ground arith
unzigzag-zigzag (negsuc n) h = ground arith

-- Whatever follows a 64-bit signed number that `writeSVarint` wrote, `_svarint` returns the number and
-- stops behind it.
pub svarint-write :
    (z : ℤ) (rest : List ℕ) → IsInt64 z → svarint (write_svarint z ++ rest) ≡ ok (z, rest)
unfolding svarint write_svarint
svarint-write z rest h = rw (uvarint-write (zigzag z) rest) (rw (unzigzag-zigzag z h))
