-- ===== src/Python/Utf8.antt =====
-- `bytes.decode()`: strict UTF-8.
use sst_sat.Base.{
  ℕ, zero, suc, ◌+◌, ◌-◌, ◌*◌, Bool, ◌&&◌, List, [], ◌∷◌, Option, none, some, ltb, leb, length,
  if◌then◌else◌,
}
use sst_sat.Python.Text.{Text}
use mathlib.Core.Option

abbrev between : ℕ → ℕ → ℕ → Bool
between lo hi b = leb lo b && leb b hi

-- `k` more bytes of a character, of which the next lies in a range of its own.
continuation : ℕ → ℕ → ℕ → ℕ → List ℕ → Option (ℕ × List ℕ)
continuation zero lo hi n bytes = some (n, bytes)
continuation (suc k) lo hi n [] = none
continuation (suc k) lo hi n (b ∷ bytes) =
    let more = continuation k 0x80 0xbf (n * 64 + (b - 0x80)) bytes in
    if between lo hi b then more else none

-- The first character. The ranges of the second byte keep out overlong forms and surrogates.
decode_char : ℕ → List ℕ → Option (ℕ × List ℕ)
unfolding continuation
decode_char b rest =
    if ltb b 0x80
    then some (b, rest)
    else if between 0xc2 0xdf b
    then continuation 1 0x80 0xbf (b - 0xc0) rest
    else if between 0xe0 0xe0 b
    then continuation 2 0xa0 0xbf (b - 0xe0) rest
    else if between 0xed 0xed b
    then continuation 2 0x80 0x9f (b - 0xe0) rest
    else if between 0xe1 0xef b
    then continuation 2 0x80 0xbf (b - 0xe0) rest
    else if between 0xf0 0xf0 b
    then continuation 3 0x90 0xbf (b - 0xf0) rest
    else if between 0xf1 0xf3 b
    then continuation 3 0x80 0xbf (b - 0xf0) rest
    else if between 0xf4 0xf4 b
    then continuation 3 0x80 0x8f (b - 0xf0) rest
    else none

decode_chars : ℕ → List ℕ → Option Text
decode_chars fuel [] = some []
decode_chars zero (b ∷ rest) = none
decode_chars (suc fuel) (b ∷ rest) = elim (decode_char b rest) [
  | none ↦ none
  | some (c, rest') ↦ Option.map (λ cs. c ∷ cs) (decode_chars fuel rest')
]

-- A character takes a byte at least.
unfoldable pub decode : List ℕ → Option Text
unfolding decode_char decode_chars
decode bytes = decode_chars (length bytes) bytes
