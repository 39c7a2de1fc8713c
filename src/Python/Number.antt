-- ===== src/Python/Number.antt =====
-- Python's `int(s)` and `str(n)`.
use sst_sat.Base.{
  ℕ, zero, suc, ◌+◌, ◌-◌, ◌*◌, ◌/◌, ◌%◌, Bool, true, false, ◌&&◌, List, [], ◌∷◌, ◌++◌, Option, none,
  some, ltb, leb, ◌==◌, if◌then◌else◌,
}
use sst_sat.Base.Int.{ℤ, pos, negsuc, negate}
use sst_sat.Python.Text.{Text, strip}
use mathlib.Core.Option

-- The code points of the digit 0 of each script; the digits 1 to 9 follow each of them.
abbrev digit_zeros : List ℕ
digit_zeros =
    48 ∷ 1632 ∷ 1776 ∷ 1984 ∷ 2406 ∷ 2534 ∷ 2662 ∷ 2790 ∷ 2918 ∷ 3046 ∷ 3174 ∷ 3302 ∷ 3430 ∷ 3558
    ∷ 3664 ∷ 3792 ∷ 3872 ∷ 4160 ∷ 4240 ∷ 6112 ∷ 6160 ∷ 6470 ∷ 6608 ∷ 6784 ∷ 6800 ∷ 6992 ∷ 7088
    ∷ 7232 ∷ 7248 ∷ 42528 ∷ 43216 ∷ 43264 ∷ 43472 ∷ 43504 ∷ 43600 ∷ 44016 ∷ 65296 ∷ 66720 ∷ 68912
    ∷ 69734 ∷ 69872 ∷ 69942 ∷ 70096 ∷ 70384 ∷ 70736 ∷ 70864 ∷ 71248 ∷ 71360 ∷ 71472 ∷ 71904 ∷ 72016
    ∷ 72784 ∷ 73040 ∷ 73120 ∷ 92768 ∷ 92864 ∷ 93008 ∷ 120782 ∷ 120792 ∷ 120802 ∷ 120812 ∷ 120822
    ∷ 123200 ∷ 123632 ∷ 125264 ∷ 130032 ∷ []

find_digit : List ℕ → ℕ → Option ℕ
find_digit [] c = none
find_digit (z ∷ zs) c =
    let rest = find_digit zs c in if leb z c && ltb c (z + 10) then some (c - z) else rest

-- The value of a decimal digit, which is any code point of the category Nd.
unfoldable pub digit_value : ℕ → Option ℕ
unfolding find_digit
digit_value c = find_digit digit_zeros c

-- Digits with single underscores between them. The flag says that the last character was a digit.
unfoldable pub int_digits : Bool → ℕ → Text → Option ℕ
unfolding digit_value
int_digits seen n [] = if seen then some n else none
int_digits seen n (c ∷ t) =
    let after_underscore = int_digits false n t in
    elim (digit_value c) [
      | some d ↦ int_digits true (n * 10 + d) t
      | none ↦ if seen && (c == b'_') then after_underscore else none
    ]

unfoldable pub int_signed : Text → Option ℤ
unfolding int_digits
int_signed [] = none
int_signed (c ∷ t) =
    if c == b'-'
    then Option.map (λ n. negate (pos n)) (int_digits false 0 t)
    else if c == b'+'
    then Option.map pos (int_digits false 0 t)
    else Option.map pos (int_digits false 0 (c ∷ t))

-- int(t), where `none` is the ValueError
unfoldable pub int : Text → Option ℤ
unfolding strip int_signed
int t = int_signed (strip t)

decimal : ℕ → ℕ → Text
decimal zero n = (48 + n % 10) ∷ []
decimal (suc fuel) n =
    let front = decimal fuel (n / 10) in
    if ltb n 10 then (48 + n) ∷ [] else front ++ ((48 + n % 10) ∷ [])

-- str(n) for a natural number: the number has fewer digits than its value says.
unfoldable pub str_ℕ : ℕ → Text
unfolding decimal
str_ℕ n = decimal n n

unfoldable pub str : ℤ → Text
unfolding str_ℕ
str (pos n) = str_ℕ n
str (negsuc n) = b'-' ∷ str_ℕ (suc n)
