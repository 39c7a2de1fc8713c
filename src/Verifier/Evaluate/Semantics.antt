-- ===== src/Verifier/Evaluate/Semantics.antt =====
-- What the verifier's verdict means for the formula: a truth value for every variable.
use sst_sat.Base.{sym, ◌∙◌}
use sst_sat.Base.{
  ℕ, ◌+◌, ◌≡◌, refl, Bool, true, false, not, ◌&&◌, ◌||◌, List, [], ◌∷◌, some, if◌then◌else◌, arith,
  All,
}
use sst_sat.Base.Int.{ℤ, pos, abs, is_positive}
use sst_sat.Base.Dict.{lookup, ℤ_eq}
use sst_sat.Base.Result.{ok}
use sst_sat.Python.Text.{Text, null}
use sst_sat.Verifier.Solution.{Assignment, parse_solution}
use sst_sat.Verifier.Cnf.{Clause, Cnf, parse_cnf}
use sst_sat.Verifier.Evaluate.{evaluate_clause, check_clauses, Verdict, verify_solution}

abbrev pub Valuation : Type 0
Valuation = ℕ → Bool

unfoldable pub literal_holds : Valuation → ℤ → Bool
literal_holds v l = if is_positive l then v (abs l) else not (v (abs l))

unfoldable pub clause_holds : Valuation → Clause → Bool
unfolding literal_holds
clause_holds v [] = false
clause_holds v (l ∷ ls) = literal_holds v l || clause_holds v ls

unfoldable pub formula_holds : Valuation → List Clause → Bool
formula_holds v [] = true
formula_holds v (c ∷ cs) = clause_holds v c && formula_holds v cs

-- The valuation has the values that the assignment gives.
abbrev pub Extends : Valuation → Assignment → Type 0
Extends v a = (x : ℕ) (b : Bool) → lookup (pos x) a ≡ some b → v x ≡ b

-- Every variable of a clause has a value.
abbrev pub IsAssigned : Assignment → Clause → Type 0
IsAssigned a [] = Unit
IsAssigned a (l ∷ ls) = ((b : Bool) × (lookup (pos (abs l)) a ≡ some b)) × IsAssigned a ls

module _ (v : Valuation) (a : Assignment) (ext : Extends v a) where
  -- A clause that is found satisfied is true.
  evaluate_clause_sound : (c : Clause) → (evaluate_clause c a).1 ≡ true → clause_holds v c ≡ true
  unfolding evaluate_clause clause_holds
  evaluate_clause_sound [] h = h
  evaluate_clause_sound (l ∷ ls) h =
      ground (arith, ext (abs l) true, ext (abs l) false, evaluate_clause_sound ls)

  -- Where every variable has a value, a clause is found satisfied exactly when it is true.
  evaluate_clause_exact : (c : Clause) → IsAssigned a c → (evaluate_clause c a).1 ≡ clause_holds v c
  unfolding evaluate_clause clause_holds
  evaluate_clause_exact [] h = refl
  evaluate_clause_exact (l ∷ ls) h =
      ground (arith, ext (abs l) h.0.0 h.0.1, h.0.1, evaluate_clause_exact ls h.1)

  check_clauses_sound :
      (i : ℕ) (cs : List Clause) → null (check_clauses i cs a).1 ≡ true → formula_holds v cs ≡ true
  unfolding check_clauses formula_holds
  check_clauses_sound i [] h = refl
  check_clauses_sound i (c ∷ cs) h =
      ground (arith, evaluate_clause_sound c, check_clauses_sound (i + 1) cs)

  check_clauses_exact :
      (i : ℕ) (cs : List Clause)
      → All (IsAssigned a) cs
      → null (check_clauses i cs a).1 ≡ formula_holds v cs
  unfolding check_clauses formula_holds
  check_clauses_exact i [] h = refl
  check_clauses_exact i (c ∷ cs) h =
      ground (arith, evaluate_clause_exact c h.0, check_clauses_exact (i + 1) cs h.1)

module _ (solution cnf : Text) (c : Cnf) (verdict : Verdict) (parsed : parse_cnf cnf ≡ ok c)
    (verified : verify_solution solution cnf ≡ ok verdict) where
  verdict-check : verdict.valid ≡ null (check_clauses 0 c.clauses (parse_solution solution).1).1
  unfolding verify_solution
  verdict-check = ground arith

  -- If the verifier calls a solution valid, every valuation with the values of the solution file makes
  -- every clause that parse_cnf returns true, whatever it says of the other variables.
  pub verify_solution_sound :
      (v : Valuation)
      → Extends v (parse_solution solution).1
      → verdict.valid ≡ true
      → formula_holds v c.clauses ≡ true
  verify_solution_sound v ext h = check_clauses_sound v _ ext 0 c.clauses (sym verdict-check ∙ h)

  -- If the solution file has a value for every variable of the clauses, the verdict is the truth value of
  -- the formula under those values.
  pub verify_solution_exact :
      (v : Valuation)
      → Extends v (parse_solution solution).1
      → All (IsAssigned (parse_solution solution).1) c.clauses
      → verdict.valid ≡ formula_holds v c.clauses
  verify_solution_exact v ext h = verdict-check ∙ check_clauses_exact v _ ext 0 c.clauses h
