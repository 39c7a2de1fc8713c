-- ===== src/Log/Number.antt =====
-- The numbers among the figures of a result, as the tools that read the results of the log parser
-- compute with them: Python's float(v), `v or 0`, comparisons and divisions.
use sst_sat.Base.{ℕ, zero, Bool, true, false, Option, some, none, List, [], ◌∷◌, ltb}
use sst_sat.Base.Int.{ℤ, pos, negsuc, ◌+ℤ◌, ◌*ℤ◌}
use sst_sat.Base.Dict.{lookup}
use sst_sat.Python.Text.{Text, Text_eq}
use sst_sat.Python.Number.{int, str}
use sst_sat.Log.Value.{Floats, Value, whole, real, text, bins, Stats, ◌>>=◌}
use mathlib.Core.Option.{get_or}

-- Further operations of Python's float, on numbers of one interpreter.
pub record Arithmetic (F : Type 0) : Type 0 where
  -- float(n), which raises an OverflowError if n is too large
  pub of_ℤ : ℤ → Option F
  pub plus : F → F → F
  -- x / y for y that is not 0, and x / n for a count n that is not 0
  pub divided : F → F → F
  pub shared : F → ℕ → F
  -- x < y and x <= y
  pub less : F → F → Bool
  pub at_most : F → F → Bool
  -- f"{x:.{n}f}" and str(x)
  pub fixed : ℕ → F → Text
  pub show : F → Text

-- float(v): a TypeError or a ValueError is `refused`, an OverflowError `too_large`.
pub data Reading (F : Type 0) : Type 0 where
  float : F → Reading F
  refused : Reading F
  too_large : Reading F

module _ (fl : Floats) (ar : Arithmetic fl.Float) where
  abbrev pub zero_float : fl.Float
  zero_float = fl.of_ℕ 0

  read_text : Option fl.Float → Reading fl.Float
  read_text none = refused
  read_text (some x) = float x

  read_ℤ : Option fl.Float → Reading fl.Float
  read_ℤ none = too_large
  read_ℤ (some x) = float x

  unfoldable pub to_float : Value fl.Float → Reading fl.Float
  unfolding read_text read_ℤ
  to_float (whole n) = read_ℤ (ar.of_ℤ n)
  to_float (real x) = float x
  to_float (text t) = read_text (fl.parse t)
  to_float (bins bs) = refused

  -- `v or 0` and `v or 0.0`: the default takes the place of a value that counts as false.
  unfoldable pub or_default : Value fl.Float → Value fl.Float → Value fl.Float
  or_default (whole (pos zero)) d = d
  or_default (whole n) d = whole n
  or_default (real x) d = elim (fl.is_zero x) [ true ↦ d | false ↦ real x ]
  or_default (text []) d = d
  or_default (text t) d = text t
  or_default (bins []) d = d
  or_default (bins bs) d = bins bs

  -- v > 0, a TypeError for what is no number
  unfoldable pub above_zero : Value fl.Float → Option Bool
  above_zero (whole (pos n)) = some (ltb 0 n)
  above_zero (whole (negsuc n)) = some false
  above_zero (real x) = some (ar.less zero_float x)
  above_zero v = none

  -- v / w for a number w above 0
  unfoldable pub quotient : Value fl.Float → Value fl.Float → Option fl.Float
  quotient (whole m) (whole (pos n)) = fl.ratio m n
  quotient (whole m) (real y) = fl.over m y
  quotient (real x) (whole n) = ar.of_ℤ n >>= (λ y. some (ar.divided x y))
  quotient (real x) (real y) = some (ar.divided x y)
  quotient v w = none

  -- v + w and v * w, of two ints or of an int and a float; a TypeError for what is no number.
  unfoldable pub add : Value fl.Float → Value fl.Float → Option (Value fl.Float)
  unfolding ◌+ℤ◌
  add (whole m) (whole n) = some (whole (m +ℤ n))
  add (whole m) (real y) = ar.of_ℤ m >>= (λ x. some (real (ar.plus x y)))
  add (real x) (whole n) = ar.of_ℤ n >>= (λ y. some (real (ar.plus x y)))
  add (real x) (real y) = some (real (ar.plus x y))
  add v w = none

  unfoldable pub multiply : Value fl.Float → Value fl.Float → Option (Value fl.Float)
  unfolding ◌*ℤ◌
  multiply (whole m) (whole n) = some (whole (m *ℤ n))
  multiply (whole m) (real y) = ar.of_ℤ m >>= (λ x. some (real (fl.times x y)))
  multiply (real x) (whole n) = ar.of_ℤ n >>= (λ y. some (real (fl.times x y)))
  multiply (real x) (real y) = some (real (fl.times x y))
  multiply v w = none

  -- sum(vs), which starts with the int 0
  unfoldable pub sum_values : Value fl.Float → List (Value fl.Float) → Option (Value fl.Float)
  unfolding add
  sum_values total [] = some total
  sum_values total (v ∷ vs) = add total v >>= (λ t. sum_values t vs)

  -- f"{v:.{n}f}" of a number, an int being made a float first
  unfoldable pub fixed_text : ℕ → Value fl.Float → Option Text
  fixed_text n (whole m) = ar.of_ℤ m >>= (λ x. some (ar.fixed n x))
  fixed_text n (real x) = some (ar.fixed n x)
  fixed_text n v = none

  -- str(v) of a number
  unfoldable pub number_text : Value fl.Float → Option Text
  unfolding str
  number_text (whole m) = some (str m)
  number_text (real x) = some (ar.show x)
  number_text v = none

  -- int(v)
  unfoldable pub to_int : Value fl.Float → Option ℤ
  unfolding int
  to_int (whole n) = some n
  to_int (real x) = fl.truncate x
  to_int (text t) = int t
  to_int (bins bs) = none

  -- sum(xs), of floats
  unfoldable pub sum_from : fl.Float → List fl.Float → fl.Float
  sum_from total [] = total
  sum_from total (x ∷ xs) = sum_from (ar.plus total x) xs

  -- 100 * v / w, or 0.0 if w is not above 0: `(v / w * 100.0) if w > 0 else 0.0`
  unfoldable pub percent : Value fl.Float → Value fl.Float → Option fl.Float
  unfolding quotient above_zero
  percent v w = above_zero w >>= (λ b. elim b [
    | true ↦ quotient v w >>= (λ x. some (fl.times x (fl.of_ℕ 100)))
    | false ↦ some zero_float
  ])

  -- r.get(key, default)
  abbrev pub figure : Text → Value fl.Float → Stats fl.Float → Value fl.Float
  figure key d r = get_or (lookup key r) d

-- r.get(key), for a text; a result of the log parser has texts at 'result' and 'test_case'.
abbrev pub text_in : {F : Type 0} → Option (Value F) → Text
text_in (some (text t)) = t
text_in v = []
