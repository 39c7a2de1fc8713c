-- ===== src/Verifier/Cnf.antt =====
-- `parse_cnf` of tools/verifier.py.
pub mod WellFormed
pub mod Layout
use sst_sat.Base.{ℕ, ◌+◌, Bool, ◌||◌, List, [], ◌∷◌, ◌++◌, none, some, if◌then◌else◌}
use sst_sat.Base.Int.{ℤ, pos, eqb_ℤ}
use sst_sat.Base.Result.{Result, ok, raise, ◌>>=◌}
use sst_sat.Python.Text.{Text, codes, starts_with, null, strip, split, lines}
use sst_sat.Python.Number.{int}
use sst_sat.Verifier.Console.{Message, invalid_clause, Exit, bad_problem_line, bad_problem_number}

abbrev pub Clause : Type 0
Clause = List ℤ

-- The variables of the function.
pub record Cnf : Type 0 where
  pub clauses : List Clause
  pub pending : Clause
  pub num_vars : ℤ
  pub num_clauses : ℤ
  pub warnings : List Message

abbrev pub init : Cnf
init = record { clauses = []; pending = []; num_vars = pos 0; num_clauses = pos 0; warnings = [] }

-- `if pending: clauses.append(pending); pending = []`
unfoldable pub end_clause : Cnf → Cnf
end_clause c =
    if null c.pending then c else record c { clauses = c.clauses ++ (c.pending ∷ []); pending = [] }

-- One literal.
unfoldable pub add_literal : ℤ → Cnf → Cnf
unfolding end_clause
add_literal lit c =
    if eqb_ℤ lit (pos 0) then end_clause c else record c { pending = c.pending ++ (lit ∷ []) }

-- `for tok in line.split()`: on a ValueError the warning is printed, and what the tokens before it
-- did stays done.
unfoldable pub add_tokens : ℕ → Text → List Text → Cnf → Cnf
unfolding add_literal
add_tokens line_num line [] c = c
add_tokens line_num line (tok ∷ toks) c = elim (int tok) [
  | none ↦ record c { warnings = c.warnings ++ (invalid_clause line_num line ∷ []) }
  | some lit ↦ add_tokens line_num line toks (add_literal lit c)
]

unfoldable pub problem_line : ℕ → List Text → Cnf → Result Exit Cnf
problem_line line_num (p ∷ cnf ∷ vars ∷ clauses ∷ []) c = elim (int vars) [
  | none ↦ raise bad_problem_number
  | some v ↦ elim (int clauses) [
    | none ↦ raise bad_problem_number
    | some n ↦ ok (record c { num_vars = v; num_clauses = n })
  ]
]
problem_line line_num _ c = raise (bad_problem_line line_num)

-- `not line or line.startswith('c') or line.startswith('%')`
unfoldable pub is_skipped : Text → Bool
is_skipped line = null line || (starts_with (codes "c") line || starts_with (codes "%") line)

-- The body of the loop on a line that is stripped.
unfoldable pub add_line : ℕ → Text → Cnf → Result Exit Cnf
unfolding problem_line is_skipped
add_line line_num line c =
    if is_skipped line
    then ok c
    else if starts_with (codes "p cnf") line
    then problem_line line_num (split line) c
    else ok (add_tokens line_num line (split line) c)

unfoldable pub add_lines : ℕ → List Text → Cnf → Result Exit Cnf
add_lines line_num [] c = ok c
add_lines line_num (line ∷ rest) c = do
  c' ← add_line line_num (strip line) c
  add_lines (line_num + 1) rest c'

-- The content of the file, once it is open; the last clause needs no 0.
unfoldable pub parse_cnf : Text → Result Exit Cnf
parse_cnf content = do c ← add_lines 1 (lines content) init; ok (end_clause c)
