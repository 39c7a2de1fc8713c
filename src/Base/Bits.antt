-- ===== src/Base/Bits.antt =====
-- Masks of a byte as arithmetic, and a bitwise or of fields that do not overlap.
use Prim.Native.Nat.{bit_and, bit_or, digits, max, bit_or-bitwise}
use Prim.Native.Nat.{ℕ, zero, suc, ◌+◌, ◌*◌, ◌/◌, ◌%◌, ◌^◌, ◌≤◌, ◌<◌}
use mathlib.Core.Path.{◌≡◌, refl, ap, ◌∙◌}
use mathlib.Core.Bool.{Bool, true, ◌&&◌}
use native.Mathlib.Omega.{arith}
use native.Mathlib.Nat.{pow-suc}
use sst_sat.Base.Tests.{◌==◌}

-- Do two functions agree below a bound? An answer by evaluation is a proof for every argument.
agree : (ℕ → ℕ) → (ℕ → ℕ) → ℕ → Bool
agree f g zero = true
agree f g (suc n) = (f n == g n) && agree f g n

agree-eq : (f g : ℕ → ℕ) (n : ℕ) → agree f g n ≡ true → (b : ℕ) → b < n → f b ≡ g b
unfolding agree
agree-eq f g zero h b lt = absurd (omega arith)
agree-eq f g (suc n) h b lt = ground (arith, λ (k : agree f g n ≡ true). agree-eq f g n k b)

pub low_seven : (b : ℕ) → b < 256 → bit_and b 0x7f ≡ b % 128
unfolding agree
low_seven = agree-eq _ _ 256 refl

pub eighth : (b : ℕ) → b < 256 → bit_and b 0x80 ≡ b / 128 * 128
unfolding agree
eighth = agree-eq _ _ 256 refl

pub with_eighth : (b : ℕ) → b < 256 → bit_or b 0x80 ≡ b % 128 + 128
unfolding agree
with_eighth = agree-eq _ _ 256 refl

pub low_four : (b : ℕ) → b < 256 → bit_and b 0xf ≡ b % 16
unfolding agree
low_four = agree-eq _ _ 256 refl

pub low_three : (b : ℕ) → b < 256 → bit_and b 0x7 ≡ b % 8
unfolding agree
low_three = agree-eq _ _ 256 refl

double : (g s : ℕ) → g * 2 ^ suc s ≡ 2 * (g * 2 ^ s)
double g s = omega (arith, ap (λ (t : ℕ). g * t) (pow-suc 2 s))

-- By recursion on the fuel of the digits, which the low field bounds.
or_digits : (s n r g : ℕ) → r < 2 ^ s → r ≤ n → digits (λ y. y) max n r (g * 2 ^ s) ≡ r + g * 2 ^ s
or_digits s zero zero g h k = omega arith
or_digits s zero (suc r) g h k = absurd (omega arith)
or_digits s (suc n) zero g h k = omega arith
or_digits zero (suc n) (suc r) g h k = absurd (omega arith)
or_digits (suc s) (suc n) (suc r) g h k = omega (
  arith,
  double g s,
  pow-suc 2 s,
  ap (λ (t : ℕ). digits (λ y. y) max n (suc r / 2) t)
      (let e : g * 2 ^ suc s / 2 ≡ g * 2 ^ s = omega (arith, double g s) in e),
  or_digits s n (suc r / 2) g (omega (arith, pow-suc 2 s)) (omega arith),
)

pub bit_or_above : (s r g : ℕ) → r < 2 ^ s → bit_or r (g * 2 ^ s) ≡ r + g * 2 ^ s
bit_or_above s r g h = bit_or-bitwise r (g * 2 ^ s) ∙ or_digits s r r g h (omega arith)
