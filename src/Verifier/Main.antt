-- ===== src/Verifier/Main.antt =====
-- `main` of tools/verifier.py: its exit code.
use sst_sat.Base.{
  ℕ, ◌≡◌, refl, arith, Bool, true, false, Option, some, none, List, [], ◌∷◌, if◌then◌else◌,
}
use sst_sat.Base.Result.{Result, ok, raise, >>=-ok}
use sst_sat.Python.Text.{Text, codes, ends_with}
use sst_sat.Verifier.Console.{Exit}
use sst_sat.Verifier.Solution.{parse_solution}
use sst_sat.Verifier.Cnf.{Cnf, parse_cnf}
use sst_sat.Verifier.Evaluate.{Verdict, verify_solution}
use sst_sat.Verifier.Evaluate.Semantics.{Valuation, Extends, formula_holds, verify_solution_sound}

-- What a path leads to.
pub data File : Type 0 where
  absent : File
  -- it exists, and reading it raises an exception
  unreadable : File
  contents : Text → File

abbrev exists : File → Bool
exists absent = false
exists f = true

abbrev pub text_of : File → Option Text
text_of (contents t) = some t
text_of f = none

module _ (files : Text → File) (decompress : Text → Option Text) where
  -- The text of the file that is verified: of a .xz file the decompressed one, if that succeeds.
  abbrev pub cnf_text : Text → Option Text
  cnf_text path = if ends_with (codes ".xz") path then decompress path else text_of (files path)

  exit_code : Result Exit Verdict → ℕ
  exit_code (raise e) = 1
  exit_code (ok v) = if v.valid then 0 else 1

  -- A file that cannot be read ends the program in the same way as a missing one.
  verify : Option Text → Option Text → ℕ
  unfolding exit_code
  verify none cnf = 1
  verify (some solution) none = 1
  verify (some solution) (some cnf) = exit_code (verify_solution solution cnf)

  unfoldable pub main : List Text → ℕ
  unfolding verify
  main (program ∷ solution_file ∷ cnf_file ∷ []) =
      if exists (files solution_file)
      then if exists (files cnf_file)
        then verify (text_of (files solution_file)) (cnf_text cnf_file)
        else 1
      else 1
  main argv = 1

  exit_code-valid :
      (r : Result Exit Verdict) → exit_code r ≡ 0 → (v : Verdict) × (r ≡ ok v) × (v.valid ≡ true)
  unfolding exit_code
  exit_code-valid (raise e) h = ground arith
  exit_code-valid (ok v) h = (v, refl, ground arith)

  parse_cnf-ok :
      (solution cnf : Text) (v : Verdict)
      → verify_solution solution cnf ≡ ok v
      → (c : Cnf) × (parse_cnf cnf ≡ ok c)
  unfolding verify_solution
  parse_cnf-ok solution cnf v h = let (c, e, _) = >>=-ok (parse_cnf cnf) _ v h in (c, e)

  verify_sound :
      (solution cnf : Option Text)
      → verify solution cnf ≡ 0
      → (s t : Text) × (c : Cnf) × (solution ≡ some s)
        × (cnf ≡ some t)
        × (parse_cnf t ≡ ok c)
        × ((v : Valuation) → Extends v (parse_solution s).1 → formula_holds v c.clauses ≡ true)
  unfolding verify
  verify_sound none cnf h = ground arith
  verify_sound (some s) none h = ground arith
  verify_sound (some s) (some t) h =
      let (verdict, verified, valid) = exit_code-valid (verify_solution s t) h in
      let (c, parsed) = parse_cnf-ok s t verdict verified in
      (
        s,
        t,
        c,
        refl,
        refl,
        parsed,
        λ v ext. verify_solution_sound s t c verdict parsed verified v ext valid,
      )

  -- If the program ends with exit code 0, it has read a solution and a CNF file that parses, and every
  -- valuation with the values of the solution makes every clause that parse_cnf returns true.
  pub main_sound :
      (program solution_file cnf_file : Text)
      → main (program ∷ solution_file ∷ cnf_file ∷ []) ≡ 0
      → (s t : Text) × (c : Cnf) × (text_of (files solution_file) ≡ some s)
        × (cnf_text cnf_file ≡ some t)
        × (parse_cnf t ≡ ok c)
        × ((v : Valuation) → Extends v (parse_solution s).1 → formula_holds v c.clauses ≡ true)
  unfolding main
  main_sound program solution_file cnf_file h = verify_sound _ _ (ground arith)
