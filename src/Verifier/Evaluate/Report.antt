-- ===== src/Verifier/Evaluate/Report.antt =====
-- The clauses that the verifier reports.
use sst_sat.Base.{ℕ, ◌+◌, ◌≡◌, ◌⊎◌, false, List, [], ◌∷◌, some, get_elem?}
use sst_sat.Verifier.Solution.{Assignment}
use sst_sat.Verifier.Cnf.{Clause}
use sst_sat.Verifier.Evaluate.{evaluate_clause}

-- The pair stands in the list.
abbrev pub Lists : List (ℕ × Clause) → ℕ → Clause → Type 0
Lists [] i c = ⊥
Lists ((j, d) ∷ bad) i c = ((j ≡ i) × (d ≡ c)) ⊎ Lists bad i c

module _ (a : Assignment) where
  Entry : List Clause → ℕ → ℕ → Clause → Type 0
  Entry cs k i c =
      (j : ℕ) × (i ≡ k + j) × (get_elem? cs j ≡ some c) × ((evaluate_clause c a).1 ≡ false)
