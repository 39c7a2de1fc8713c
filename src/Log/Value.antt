-- ===== src/Log/Value.antt =====
-- What the log parser of tools/unified_parser.py returns: a dict from names to figures. Floats are a
-- parameter.
use sst_sat.Base.{◌≡◌, refl, ◌↔◌, arith, ℕ, List, Option, none, some, [], ◌∷◌, Bool, true, false}
use sst_sat.Base.Int.{ℤ, eqb_ℤ, eqb_ℤ_iff}
use sst_sat.Base.Dict.{Dict, Eq, insert}
use sst_sat.Python.Text.{Text, Text_eq, eq_text, eq_text_iff}
use sst_sat.Python.Number.{int}
use mathlib.Core.Option

infixl 5 ◌>>=◌
abbrev pub ◌>>=◌ : {A B : Type 0} → Option A → (A → Option B) → Option B
none >>= f = none
some a >>= f = f a

pub >>=-some :
    {A B : Type 0} (o : Option A) (f : A → Option B) (b : B)
    → (o >>= f) ≡ some b
    → (a : A) × (o ≡ some a) × (f a ≡ some b)
>>=-some none f b h = ground arith
>>=-some (some a) f b h = (a, refl, h)

-- Python's float. A missing result is an exception: a ValueError of `parse`, an OverflowError of the
-- others.
pub record Floats : Type 1 where
  pub Float : Type 0
  pub parse : Text → Option Float
  pub of_ℕ : ℕ → Float
  pub thousandth : Float
  pub times : Float → Float → Float
  -- a / b for an integer and a number that is not 0
  pub ratio : ℤ → ℕ → Option Float
  -- a / x for an integer and a float that is not 0
  pub over : ℤ → Float → Option Float
  -- `x == 0` and `x <= 0`
  pub is_zero : Float → Bool
  pub at_most_zero : Float → Bool
  -- int(x)
  pub truncate : Float → Option ℤ
  -- f"{x:.1f}"
  pub one_decimal : Float → Text

-- A bin of a histogram: its key is a number, or the text of a range.
pub data BinKey : Type 0 where
  at : ℤ → BinKey
  range : Text → BinKey

unfoldable pub eq_key : BinKey → BinKey → Bool
eq_key (at m) (at n) = eqb_ℤ m n
eq_key (range s) (range t) = eq_text s t
eq_key j k = false

pub eq_key_iff : (j k : BinKey) → (eq_key j k ≡ true) ↔ (j ≡ k)
unfolding eq_key
eq_key_iff (at m) (at n) = ground (arith, eqb_ℤ_iff m n)
eq_key_iff (range s) (range t) = ground (arith, eq_text_iff s t)
eq_key_iff (at m) (range t) = ground arith
eq_key_iff (range s) (at n) = ground arith

instance abbrev pub BinKey_eq : Eq BinKey
BinKey_eq = record { beq = eq_key; beq_iff = eq_key_iff }

pub record Bin (F : Type 0) : Type 0 where
  pub samples : ℤ
  pub percentage : F

pub data Value (F : Type 0) : Type 0 where
  whole : ℤ → Value F
  real : F → Value F
  text : Text → Value F
  bins : List (BinKey × Bin F) → Value F

abbrev pub Stats : Type 0 → Type 0
Stats F = Dict Text (Value F)

-- d.update(e)
unfoldable pub update : {F : Type 0} → Stats F → Stats F → Stats F
update d [] = d
update d (kv ∷ e) = update (insert kv.0 kv.1 d) e

-- stats[key] = int(t) and stats[key] = float(t)
abbrev pub put_int : {F : Type 0} → Text → Text → Stats F → Option (Stats F)
put_int key t d = Option.map (λ n. insert key (whole n) d) (int t)

abbrev pub put_float : (fl : Floats) → Text → Text → Stats fl.Float → Option (Stats fl.Float)
put_float fl key t d = Option.map (λ x. insert key (real x) d) (fl.parse t)
