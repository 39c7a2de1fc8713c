-- ===== src/Verifier/Runs.antt =====
-- Concrete runs of the verifier, and its theorems at concrete inputs.
use sst_sat.Base.{zero, suc, arith}
use sst_sat.Base.{ℕ, ◌≡◌, refl, Bool, true, false, [], ◌∷◌, ◌++◌, some, All}
use sst_sat.Base.Int.{pos, negsuc, negate}
use sst_sat.Base.Dict.{lookup, insert, ℤ_eq}
use sst_sat.Base.Result.{ok}
use sst_sat.Python.Text.{Text, codes, lines, strip, split, split_on, is_space}
use sst_sat.Python.Number.{int}
use sst_sat.Verifier.Console.{invalid_clause}
use sst_sat.Verifier.Solution.{parse_solution, Assignment}
use sst_sat.Verifier.Cnf.{
  Cnf, parse_cnf, add_lines, add_line, add_tokens, end_clause, init, is_skipped,
}
use sst_sat.Verifier.Cnf.WellFormed.{IsClause, parse_cnf-IsClause}
use sst_sat.Verifier.Cnf.Layout.{
  HasLiterals, none_left, numbers, comment, clauses_of, parse_cnf-layout, add_tokens-bad_token,
  add_literals,
}
use sst_sat.Verifier.Evaluate.{evaluate_clause, check_clauses, Verdict, verify_solution}
use sst_sat.Verifier.Evaluate.Semantics.{
  Valuation, Extends, IsAssigned, formula_holds, verify_solution_sound, verify_solution_exact,
}
use sst_sat.Base.{Option, none, if◌then◌else◌}
use sst_sat.Python.Text.{eq_text}
use sst_sat.Verifier.Main.{File, absent, contents, text_of, cnf_text, main, main_sound}

-- (x1 or not x2) and (x2 or x3), the second clause over two lines.
abbrev cnf : Text
cnf = codes "c two" ++ (10 ∷ (codes "p cnf 3 2" ++ (10 ∷ (codes "1 -2 0 2" ++ (10 ∷ codes "3 0")))))

abbrev solution : Text
solution = codes "x1=1 x2=0 x3=1"

abbrev formula : Cnf
formula = record {
  clauses = (pos 1 ∷ negsuc 1 ∷ []) ∷ (pos 2 ∷ pos 3 ∷ []) ∷ [];
  pending = [];
  num_vars = pos 3;
  num_clauses = pos 2;
  warnings = [];
}

cnf_parses : parse_cnf cnf ≡ ok formula
unfolding parse_cnf add_lines add_line add_tokens end_clause lines strip split int negate is_space
cnf_parses = refl

parse_cnf-IsClause_example : All IsClause formula.clauses
parse_cnf-IsClause_example = parse_cnf-IsClause cnf formula cnf_parses

-- The comment and the literals of a file with no problem line.
abbrev loose : Text
loose = codes "c one" ++ (10 ∷ (codes "1 -2" ++ (10 ∷ codes "0 3")))

loose_literals : HasLiterals (lines loose) (pos 1 ∷ negsuc 1 ∷ pos 0 ∷ pos 3 ∷ [])
unfolding lines is_skipped strip split int negate is_space
loose_literals = comment refl (
    numbers {ms = pos 1 ∷ negsuc 1 ∷ []} refl refl refl
      (numbers {ms = pos 0 ∷ pos 3 ∷ []} refl refl refl none_left))

parse_cnf-layout_example :
    (c : Cnf) × (parse_cnf loose ≡ ok c)
    × (c.clauses ≡ clauses_of [] (pos 1 ∷ negsuc 1 ∷ pos 0 ∷ pos 3 ∷ []))
parse_cnf-layout_example =
    parse_cnf-layout loose (pos 1 ∷ negsuc 1 ∷ pos 0 ∷ pos 3 ∷ []) loose_literals

-- Of the line `5 x 0` the 5 stays open.
add_tokens-bad_token_example :
    add_tokens 7 (codes "5 x 0") (codes "5" ∷ codes "x" ∷ codes "0" ∷ []) init
    ≡ record (add_literals (pos 5 ∷ []) init) {
      warnings =
          (add_literals (pos 5 ∷ []) init).warnings ++ (invalid_clause 7 (codes "5 x 0") ∷ []);
    }
unfolding int is_space
add_tokens-bad_token_example =
    add_tokens-bad_token 7 (codes "5 x 0") (codes "5" ∷ []) (pos 5 ∷ []) (codes "x")
      (codes "0" ∷ []) init refl refl

abbrev assignment : Assignment
assignment = (pos 1, true) ∷ (pos 2, false) ∷ (pos 3, true) ∷ []

solution_parses : (parse_solution solution).1 ≡ assignment
unfolding parse_solution strip split split_on int is_space insert
solution_parses = refl

abbrev verdict : Verdict
verdict = record { warnings = []; unsatisfied = []; valid = true }

solution_verified : verify_solution solution cnf ≡ ok verdict
unfolding verify_solution parse_solution strip split split_on int is_space insert parse_cnf
    add_lines add_line add_tokens end_clause lines negate check_clauses evaluate_clause lookup
solution_verified = refl

abbrev valuation : Valuation
valuation zero = false
valuation (suc zero) = true
valuation (suc (suc zero)) = false
valuation (suc (suc (suc n))) = true

agrees : (x : ℕ) (b : Bool) → lookup (pos x) assignment ≡ some b → valuation x ≡ b
unfolding lookup
agrees zero b h = cc
agrees (suc zero) b h = cc
agrees (suc (suc zero)) b h = cc
agrees (suc (suc (suc zero))) b h = cc
agrees (suc (suc (suc (suc n)))) b h = ground arith

valuation-Extends : Extends valuation (parse_solution solution).1
valuation-Extends = rw solution_parses agrees

verify_solution_sound_example : formula_holds valuation formula.clauses ≡ true
verify_solution_sound_example =
    verify_solution_sound solution cnf formula verdict cnf_parses solution_verified valuation
      valuation-Extends refl

All-IsAssigned : All (IsAssigned (parse_solution solution).1) formula.clauses
unfolding lookup
All-IsAssigned =
    rw solution_parses
      (((true, refl), ((false, refl), tt)), (((false, refl), ((true, refl), tt)), tt))

verify_solution_exact_example : verdict.valid ≡ formula_holds valuation formula.clauses
verify_solution_exact_example =
    verify_solution_exact solution cnf formula verdict cnf_parses solution_verified valuation
      valuation-Extends All-IsAssigned

abbrev files : Text → File
files path =
    if eq_text path (codes "a.sol")
    then contents solution
    else if eq_text path (codes "a.cnf")
    then contents cnf
    else absent

abbrev decompress : Text → Option Text
decompress path = none

exit_0 : main files decompress (codes "verifier.py" ∷ codes "a.sol" ∷ codes "a.cnf" ∷ []) ≡ 0
unfolding main verify_solution parse_solution strip split split_on int is_space insert parse_cnf
    add_lines add_line add_tokens end_clause lines negate check_clauses evaluate_clause lookup
exit_0 = refl

main_sound_example :
    (s t : Text) × (c : Cnf) × (text_of (files (codes "a.sol")) ≡ some s)
    × (cnf_text files decompress (codes "a.cnf") ≡ some t)
    × (parse_cnf t ≡ ok c)
    × ((v : Valuation) → Extends v (parse_solution s).1 → formula_holds v c.clauses ≡ true)
main_sound_example =
    main_sound files decompress (codes "verifier.py") (codes "a.sol") (codes "a.cnf") exit_0
