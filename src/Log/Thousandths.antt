-- ===== src/Log/Thousandths.antt =====
-- Thousandths for the floats, for concrete runs: the number n stands for n / 1000.
use sst_sat.Base.{ℕ, ◌+◌, ◌*◌, ◌/◌, ◌%◌, ◌≡◌, arith, true, false, ◌∷◌, ◌++◌, some, ◌==◌, ltb, leb}
use sst_sat.Base.Int.{pos, abs}
use sst_sat.Python.Number.{int, str_ℕ}
use sst_sat.Log.Value.{Floats}
use sst_sat.Log.Number.{Arithmetic}
use mathlib.Core.Option

abbrev pub thousandths : Floats
thousandths = record {
  Float = ℕ;
  parse = λ t. Option.map (λ n. abs n * 1000) (int t);
  of_ℕ = λ n. n * 1000;
  thousandth = 1;
  times = λ x y. x * y / 1000;
  ratio = λ n k. some (abs n * 1000 / k);
  over = λ n x. some (abs n * 1000000 / x);
  is_zero = λ x. x == 0;
  at_most_zero = λ x. x == 0;
  truncate = λ x. some (pos (x / 1000));
  one_decimal = λ x. str_ℕ (x / 1000) ++ (b'.' ∷ str_ℕ (x % 1000 / 100));
}

abbrev pub sums : Arithmetic ℕ
sums = record {
  of_ℤ = λ n. some (abs n * 1000);
  plus = λ x y. x + y;
  divided = λ x y. x * 1000 / y;
  shared = λ x n. x / n;
  less = λ x y. ltb x y;
  at_most = λ x y. leb x y;
  fixed = λ n x. str_ℕ (x / 1000) ++ (b'.' ∷ str_ℕ (x % 1000));
  show = λ x. str_ℕ (x / 1000) ++ (b'.' ∷ str_ℕ (x % 1000));
}

pub less_at_most : (x y : ℕ) → ltb x y ≡ true → leb y x ≡ false
less_at_most x y h = ground arith

pub irreflexive : (x : ℕ) → ltb x x ≡ false
irreflexive x = ground arith

pub transitive : (x y z : ℕ) → ltb x y ≡ true → ltb y z ≡ true → ltb x z ≡ true
transitive x y z h k = ground arith
