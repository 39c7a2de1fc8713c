-- ===== src/Trace/Varint.antt =====
-- `_uvarint` and `_svarint` of tools/trace_lib.py. The part of the buffer from index `i` on is a
-- list, so that `buf[i]` and `i += 1` take its head.
pub mod RoundTrip
use Prim.Native.Nat.{bit_and, bit_or}
use sst_sat.Base.{ℕ, ◌+◌, ◌*◌, ◌/◌, ◌%◌, ◌^◌, List, [], ◌∷◌, ◌==◌, if◌then◌else◌}
use sst_sat.Base.Int.{ℤ, pos, negsuc}
use sst_sat.Base.Result.{Result, ok, raise, ◌>>=◌}
use sst_sat.Trace.Error.{Error, index_error}

-- `buf[i]; i += 1`
unfoldable pub read_byte : List ℕ → Result Error (ℕ × List ℕ)
read_byte [] = raise index_error
read_byte (b ∷ rest) = ok (b, rest)

-- The body of the loop, with `r` and `s`.
unfoldable pub uvarint_loop : List ℕ → ℕ → ℕ → Result Error (ℕ × List ℕ)
uvarint_loop [] r s = raise index_error
uvarint_loop (b ∷ rest) r s =
    let r' = bit_or r (bit_and b 0x7f * 2 ^ s) in
    let more = uvarint_loop rest r' (s + 7) in if bit_and b 0x80 == 0 then ok (r', rest) else more

unfoldable pub uvarint : List ℕ → Result Error (ℕ × List ℕ)
unfolding uvarint_loop
uvarint buf = uvarint_loop buf 0 0

-- `(u >> 1) ^ -(u & 1)`: the exclusive or with 0 keeps a number, and that with -1 takes `m` to `-m - 1`.
unfoldable pub unzigzag : ℕ → ℤ
unzigzag u = if u % 2 == 0 then pos (u / 2) else negsuc (u / 2)

unfoldable pub svarint : List ℕ → Result Error (ℤ × List ℕ)
svarint buf = do (u, rest) ← uvarint buf; ok (unzigzag u, rest)
