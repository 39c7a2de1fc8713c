-- ===== src/Verifier/Evaluate.antt =====
-- `evaluate_clause` and `verify_solution` of tools/verifier.py.
pub mod Report
pub mod Semantics
use sst_sat.Base.{
  ℕ, ◌+◌, Bool, true, false, not, List, [], ◌∷◌, ◌++◌, Option, none, some, if◌then◌else◌,
}
use sst_sat.Base.Int.{ℤ, pos, abs, is_positive}
use sst_sat.Base.Result.{Result, ok, ◌>>=◌}
use sst_sat.Base.Dict.{lookup, ℤ_eq}
use sst_sat.Python.Text.{Text, null}
use sst_sat.Verifier.Console.{Message, unassigned, Exit}
use sst_sat.Verifier.Solution.{Assignment, parse_solution}
use sst_sat.Verifier.Cnf.{Clause, parse_cnf}

-- The warnings, and the value that is returned.
unfoldable pub evaluate_clause : Clause → Assignment → List Message × Bool
evaluate_clause [] assignment = ([], false)
evaluate_clause (literal ∷ clause) assignment =
    let rest = evaluate_clause clause assignment in
    elim (lookup (pos (abs literal)) assignment) [
      | none ↦ (unassigned (abs literal) ∷ rest.0, rest.1)
      | some value ↦ if (if is_positive literal then value else not value) then ([], true) else rest
    ]

-- The loop over `enumerate(clauses)`: the warnings, and the clauses that are not satisfied.
unfoldable pub check_clauses : ℕ → List Clause → Assignment → List Message × List (ℕ × Clause)
check_clauses i [] assignment = ([], [])
check_clauses i (clause ∷ clauses) assignment =
    let (ms, satisfied) = evaluate_clause clause assignment in
    let (ns, bad) = check_clauses (i + 1) clauses assignment in
    (ms ++ ns, if satisfied then bad else (i, clause) ∷ bad)

-- `f"{literal}={…}"` for one literal of a reported clause; `none` is the question mark.
unfoldable pub literal_value : Assignment → ℤ → ℤ × Option Bool
literal_value assignment literal = (
  literal,
  elim (lookup (pos (abs literal)) assignment) [
    | none ↦ none
    | some value ↦ some (if is_positive literal then value else not value)
  ],
)

abbrev pub literal_values : Assignment → Clause → List (ℤ × Option Bool)
literal_values assignment [] = []
literal_values assignment (literal ∷ clause) =
    literal_value assignment literal ∷ literal_values assignment clause

-- What is printed of the clauses that are not satisfied.
abbrev pub report : Assignment → List (ℕ × Clause) → List (ℕ × Clause × List (ℤ × Option Bool))
report assignment [] = []
report assignment ((i, clause) ∷ bad) =
    (i, clause, literal_values assignment clause) ∷ report assignment bad

pub record Verdict : Type 0 where
  pub warnings : List Message
  pub unsatisfied : List (ℕ × Clause × List (ℤ × Option Bool))
  pub valid : Bool

-- verify_solution(solution_file, cnf_file), on the contents of two files that can be opened
unfoldable pub verify_solution : Text → Text → Result Exit Verdict
verify_solution solution cnf = do
  let (ms, assignment) = parse_solution solution
  c ← parse_cnf cnf
  let (ns, bad) = check_clauses 0 c.clauses assignment
  ok (record {
    warnings = ms ++ (c.warnings ++ ns);
    unsatisfied = report assignment bad;
    valid = null bad;
  })
