-- ===== src/Python/Regex/Tests.antt =====
-- Patterns on concrete texts.
use sst_sat.Base.{◌≡◌, refl, some, [], ◌∷◌}
use sst_sat.Python.Text.{codes, is_space}
use sst_sat.Python.Number.{digit_value}
use sst_sat.Python.Regex.{Found, group, ◌⨟◌, lit, spaces, digits1, search_re, is_digit}
use mathlib.Core.Option

decisions_found :
    Option.map
      (λ (m : Found). m.groups)
      (search_re
        (lit "Decisions" ⨟ spaces ⨟ lit ":" ⨟ spaces ⨟ group 1 digits1)
        (codes "x Decisions : 420 y"))
    ≡ some ((1, codes "420") ∷ [])
unfolding search_re is_digit is_space digit_value
decisions_found = refl
