-- ===== src/Trace/RoundTrip/Bytes.antt =====
-- `int.from_bytes` on the numbers that `close` writes.
use sst_sat.Base.{ℕ, zero, suc, ◌+◌, ◌*◌, ◌/◌, ◌%◌, ◌^◌, ◌<◌, ◌≡◌, ◌∙◌, ap, arith}
use native.Mathlib.Nat.{
  div-add-mod, add-mul-mod_self_left, mod-eq_of_lt, mod-lt, one-le-pow, pow-succ',
}
use sst_sat.Trace.Writer.{little_endian}
use sst_sat.Trace.Reader.{from_bytes}

split_mod : (v p : ℕ) → 0 < p → v % (256 * p) ≡ v % 256 + 256 * (v / 256 % p)
split_mod v p h =
    ap (λ (t : ℕ). t % (256 * p)) (omega (arith, ap (λ (t : ℕ). 256 * t) (div-add-mod (v / 256) p)))
    ∙ (add-mul-mod_self_left (v % 256 + 256 * (v / 256 % p)) (256 * p) (v / 256 / p)
        ∙ mod-eq_of_lt (omega (arith, mod-lt (v / 256) h)))

-- The bytes of a number below 256 ^ k; a larger one is cut.
pub from_bytes-little_endian : (k v : ℕ) → from_bytes (little_endian k v) ≡ v % 256 ^ k
unfolding from_bytes little_endian
from_bytes-little_endian zero v = omega arith
from_bytes-little_endian (suc k) v = rw (from_bytes-little_endian k (v / 256)) (
    omega (
      arith,
      split_mod v (256 ^ k) (one-le-pow k 256 (omega arith)),
      ap (λ (t : ℕ). v % t) (pow-succ' 256 k),
    ))
