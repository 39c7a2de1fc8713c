-- ===== src/Verifier/Solution.antt =====
-- `parse_solution` of tools/verifier.py.
use sst_sat.Base.{Bool, true, false, ◌&&◌, List, [], ◌∷◌, none, some, if◌then◌else◌}
use sst_sat.Base.Int.{ℤ, pos, eqb_ℤ}
use sst_sat.Base.Dict.{Dict, insert, ℤ_eq}
use sst_sat.Python.Text.{Text, codes, starts_with, has_char, strip, split, split_on}
use sst_sat.Python.Number.{int}
use sst_sat.Verifier.Console.{Message, invalid_value, invalid_assignment}

abbrev pub Assignment : Type 0
Assignment = Dict ℤ Bool

-- What becomes of one part of the file: nothing, a warning, or an entry of the dict.
pub data Part : Type 0 where
  skip : Part
  warn : Message → Part
  assign : ℤ → Bool → Part

-- `value not in [0, 1]`, and `bool(value)` of the others
abbrev pub checked : ℤ → ℤ → Part
checked var value =
    if eqb_ℤ value (pos 0)
    then assign var false
    else if eqb_ℤ value (pos 1)
    then assign var true
    else warn (invalid_value value var)

-- `part[1:]`
abbrev pub behind_first : Text → Text
behind_first [] = []
behind_first (c ∷ t) = t

-- The `try` block: the unpacking of `part.split('=')` fails unless there are two pieces.
unfoldable pub two_pieces : Text → Text × List Text → Part
two_pieces part (var_part, value_part ∷ []) = elim (int (behind_first var_part)) [
  | none ↦ warn (invalid_assignment part)
  | some var ↦ elim (int value_part) [
    | none ↦ warn (invalid_assignment part)
    | some value ↦ checked var value
  ]
]
two_pieces part _ = warn (invalid_assignment part)

unfoldable pub read_part : Text → Part
unfolding two_pieces
read_part part =
    if has_char b'=' part && starts_with (codes "x") part
    then two_pieces part (split_on b'=' part)
    else skip

-- `for part in parts`: the warnings, and the dict.
unfoldable pub read_parts : List Text → Assignment → List Message × Assignment
read_parts [] assignment = ([], assignment)
read_parts (part ∷ parts) assignment = elim (read_part part) [
  | skip ↦ read_parts parts assignment
  | warn m ↦ (let (ms, a) = read_parts parts assignment in (m ∷ ms, a))
  | assign var value ↦ read_parts parts (insert var value assignment)
]

-- The content of the file, once it is open.
unfoldable pub parse_solution : Text → List Message × Assignment
unfolding read_part read_parts
parse_solution content = read_parts (split (strip content)) []
