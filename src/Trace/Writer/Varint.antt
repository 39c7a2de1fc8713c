-- ===== src/Trace/Writer/Varint.antt =====
-- `writeUVarint` and `writeSVarint` of src/trace_writer.h: the bytes that are put behind `p`.
use Prim.Native.Nat.{bit_or}
use sst_sat.Base.{ℕ, zero, suc, ◌+◌, ◌*◌, ◌/◌, ◌%◌, ◌^◌, ◌<◌, List, [], ◌∷◌, ltb, if◌then◌else◌}
use sst_sat.Base.Int.{ℤ, pos, negsuc}

-- `while (v >= 0x80) { *p++ = (uint8_t)(v | 0x80); v >>= 7; }`: the low byte of `v | 0x80` is that of
-- `v` with the bit set.
unfoldable pub write_uvarint_loop : ℕ → ℕ → List ℕ
write_uvarint_loop zero v = v % 256 ∷ []
write_uvarint_loop (suc fuel) v =
    let rest = write_uvarint_loop fuel (v / 128) in
    if ltb v 0x80 then v % 256 ∷ [] else bit_or (v % 256) 0x80 ∷ rest

-- A number has fewer groups of seven bits than its value says.
unfoldable pub write_uvarint : ℕ → List ℕ
unfolding write_uvarint_loop
write_uvarint v = write_uvarint_loop v v

abbrev pub IsInt64 : ℤ → Type 0
IsInt64 (pos n) = n < 2 ^ 63
IsInt64 (negsuc n) = n < 2 ^ 63

-- `(uint64_t)((v << 1) ^ (v >> 63))`: `v >> 63` is 0 or -1, and the exclusive or with -1 takes `2 * v` to
-- `-(2 * v) - 1`, which is `2 * n + 1` at `v` = -(n + 1).
unfoldable pub zigzag : ℤ → ℕ
zigzag (pos n) = n * 2 % 2 ^ 64
zigzag (negsuc n) = (n * 2 + 1) % 2 ^ 64

unfoldable pub write_svarint : ℤ → List ℕ
write_svarint z = write_uvarint (zigzag z)
