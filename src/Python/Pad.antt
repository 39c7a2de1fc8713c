-- ===== src/Python/Pad.antt =====
-- The fields of an f-string with a width, and hexadecimal numbers.
use sst_sat.Base.{
  ℕ, zero, suc, ◌+◌, ◌-◌, ◌/◌, ◌%◌, [], ◌∷◌, ◌++◌, ltb, length, replicate, if◌then◌else◌,
}
use sst_sat.Base.Int.{ℤ, pos, negsuc}
use sst_sat.Python.Text.{Text}

-- `{t:<width}` and `{t:>width}`
unfoldable pub pad_right : ℕ → Text → Text
pad_right width t = t ++ replicate (width - length t) b' '

unfoldable pub pad_left : ℕ → Text → Text
pad_left width t = replicate (width - length t) b' ' ++ t

abbrev hex_digit : ℕ → ℕ
hex_digit d = if ltb d 10 then 48 + d else 87 + d

hex : ℕ → ℕ → Text
hex zero n = hex_digit (n % 16) ∷ []
hex (suc fuel) n =
    let front = hex fuel (n / 16) in
    if ltb n 16 then hex_digit n ∷ [] else front ++ (hex_digit (n % 16) ∷ [])

-- `{n:x}`: the number has fewer digits than its value says.
unfoldable pub str_hex : ℕ → Text
unfolding hex
str_hex n = hex n n

abbrev zeros_before : ℕ → Text → Text
zeros_before width t = replicate (width - length t) b'0' ++ t

-- `{a:0width x}`: the sign counts.
unfoldable pub hex_padded : ℕ → ℤ → Text
unfolding str_hex
hex_padded width (pos n) = zeros_before width (str_hex n)
hex_padded width (negsuc n) = b'-' ∷ zeros_before (width - 1) (str_hex (suc n))
