-- ===== src/Verifier/Console.antt =====
-- The warnings that tools/verifier.py prints while it reads and evaluates.
use sst_sat.Base.{ℕ}
use sst_sat.Base.Int.{ℤ}
use sst_sat.Python.Text.{Text}

pub data Message : Type 0 where
  -- `Invalid value … for variable …, expected 0 or 1`
  invalid_value : ℤ → ℤ → Message
  -- `Invalid assignment format: …`
  invalid_assignment : Text → Message
  -- `Invalid clause format on line …: …`
  invalid_clause : ℕ → Text → Message
  -- `Variable … not found in assignment`
  unassigned : ℕ → Message

-- What ends the program with `sys.exit(1)` while the CNF file is read.
pub data Exit : Type 0 where
  -- `Invalid problem line format on line …`
  bad_problem_line : ℕ → Exit
  -- `Error reading CNF file`: a number of the problem line that `int` refuses
  bad_problem_number : Exit
