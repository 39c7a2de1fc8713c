-- ===== src/Cleanup/Runs.antt =====
-- Concrete runs of the clean-up.
use sst_sat.Base.{ℕ, ◌≡◌, refl, Bool, true, false, not, ◌&&◌, List, [], ◌∷◌, if◌then◌else◌}
use sst_sat.Base.Int.{pos}
use sst_sat.Python.Text.{Text, codes, eq_text}
use sst_sat.Python.Number.{str, str_ℕ}
use sst_sat.Cleanup.{TimeoutEntry, has_file, delete_artifacts}
use sst_sat.Cleanup.Removed.{is_artifact, delete_artifacts-has_file, delete_artifacts_dry}

abbrev timed_out : List TimeoutEntry
timed_out = record { name = codes "uf20"; seed = pos 3 } ∷ []

-- Two paths of one file, and other paths of another one.
abbrev named : Text → ℕ
named p =
    if eq_text p (codes "runs/seed3/uf20.log")
    then 1
    else if eq_text p (codes "runs/seed4/../seed3/uf20.log")
    then 1
    else 2

abbrev can_remove : Text → Bool
can_remove p = true

delete_artifacts-has_file_example :
    has_file 1 (delete_artifacts named can_remove (codes "runs") false timed_out (1 ∷ 3 ∷ [])).files
    ≡ (has_file 1 (1 ∷ 3 ∷ []) && not (is_artifact named can_remove (codes "runs") timed_out 1))
delete_artifacts-has_file_example =
    delete_artifacts-has_file named can_remove (codes "runs") timed_out (1 ∷ 3 ∷ []) 1

is_artifact_test : is_artifact named can_remove (codes "runs") timed_out 1 ≡ true
unfolding is_artifact str str_ℕ
is_artifact_test = refl

-- A name with `..` in it removes the log of another run.
alias_test :
    (delete_artifacts named can_remove
      (codes "runs")
      false
      (record { name = codes "../seed3/uf20"; seed = pos 4 } ∷ [])
      (1 ∷ 3 ∷ [])).files
    ≡ 3 ∷ []
unfolding delete_artifacts str str_ℕ
alias_test = refl

delete_artifacts_dry_example :
    (delete_artifacts named can_remove (codes "runs") true timed_out (1 ∷ 3 ∷ [])).files
    ≡ 1 ∷ 3 ∷ []
delete_artifacts_dry_example =
    delete_artifacts_dry named can_remove (codes "runs") timed_out (1 ∷ 3 ∷ [])
