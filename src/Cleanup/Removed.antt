-- ===== src/Cleanup/Removed.antt =====
-- The files that tools/cleanup_timeouts.py removes.
use sst_sat.Base.{
  ℕ, ◌≡◌, refl, ap, ◌∙◌, arith, Bool, true, false, not, ◌&&◌, ◌||◌, List, [], ◌∷◌, ◌++◌, ◌==◌,
  ==_iff,
}
use sst_sat.Python.Text.{Text, codes}
use sst_sat.Python.Number.{str}
use sst_sat.Python.Path.{join_path}
use sst_sat.Cleanup.{
  TimeoutEntry, Cleaning, has_file, remove_file, artifact_paths, all_artifacts, delete_path,
  delete_paths, delete_artifacts,
}

has_file-remove_file :
    (f g : ℕ) (gs : List ℕ) → has_file f (remove_file g gs) ≡ (has_file f gs && not (g == f))
unfolding remove_file
has_file-remove_file f g [] = refl
has_file-remove_file f g (h ∷ gs) =
    ground (arith, has_file-remove_file f g gs, ==_iff h f, ==_iff h g, ==_iff g f)

module _ (named : Text → ℕ) (can_remove : Text → Bool) where
  -- Whether a path names a file, and can be removed.
  abbrev takes : ℕ → Text → Bool
  takes f p = can_remove p && (named p == f)

  takes_one : ℕ → List Text → Bool
  takes_one f [] = false
  takes_one f (p ∷ ps) = takes f p || takes_one f ps

  takes_one-append :
      (f : ℕ) (ps qs : List Text) → takes_one f (ps ++ qs) ≡ takes_one f ps || takes_one f qs
  unfolding takes_one
  takes_one-append f [] qs = refl
  takes_one-append f (p ∷ ps) qs = ground (arith, takes_one-append f ps qs)

  has_file-delete_path :
      (f : ℕ) (p : Text) (s : Cleaning)
      → has_file f (delete_path named can_remove false p s).files
        ≡ (has_file f s.files && not (takes f p))
  unfolding delete_path
  has_file-delete_path f p s =
      ground (arith, has_file-remove_file f (named p) s.files, ==_iff (named p) f)

  has_file-delete_paths :
      (f : ℕ) (ps : List Text) (s : Cleaning)
      → has_file f (delete_paths named can_remove false ps s).files
        ≡ (has_file f s.files && not (takes_one f ps))
  unfolding delete_paths takes_one
  has_file-delete_paths f [] s = ground arith
  has_file-delete_paths f (p ∷ ps) s = ground (
    arith,
    has_file-delete_paths f ps (delete_path named can_remove false p s),
    has_file-delete_path f p s,
  )

  -- Whether a file is the log or the statistics of a listed run, under a path that can be removed.
  unfoldable pub is_artifact : Text → List TimeoutEntry → ℕ → Bool
  unfolding join_path str
  is_artifact runs_root [] f = false
  is_artifact runs_root (e ∷ es) f =
      let base = join_path (join_path runs_root (codes "seed" ++ str e.seed)) in
      takes f (base (e.name ++ codes ".log"))
      || (takes f (base (e.name ++ codes ".stats.csv")) || is_artifact runs_root es f)

  takes_one-all_artifacts :
      (runs_root : Text) (es : List TimeoutEntry) (f : ℕ)
      → takes_one f (all_artifacts runs_root es) ≡ is_artifact runs_root es f
  unfolding all_artifacts is_artifact artifact_paths takes_one
  takes_one-all_artifacts runs_root [] f = refl
  takes_one-all_artifacts runs_root (e ∷ es) f =
      let base = join_path (join_path runs_root (codes "seed" ++ str e.seed)) in
      let log = base (e.name ++ codes ".log") in
      let stats = base (e.name ++ codes ".stats.csv") in
      ap (λ b. takes f log || (takes f stats || b)) (takes_one-all_artifacts runs_root es f)

  -- After a clean-up that is no dry run exactly those files are left that were there before and that no
  -- path names that can be removed and is `name.log` or `name.stats.csv` in the folder of the seed of a
  -- listed run.
  pub delete_artifacts-has_file :
      (runs_root : Text) (es : List TimeoutEntry) (files : List ℕ) (f : ℕ)
      → has_file f (delete_artifacts named can_remove runs_root false es files).files
        ≡ (has_file f files && not (is_artifact runs_root es f))
  unfolding delete_artifacts
  delete_artifacts-has_file runs_root es files f =
      has_file-delete_paths f (all_artifacts runs_root es) _
      ∙ ap (λ b. has_file f files && not b) (takes_one-all_artifacts runs_root es f)

  delete_path_dry :
      (p : Text) (s : Cleaning) → (delete_path named can_remove true p s).files ≡ s.files
  unfolding delete_path
  delete_path_dry p s = ground arith

  delete_paths_dry :
      (ps : List Text) (s : Cleaning) → (delete_paths named can_remove true ps s).files ≡ s.files
  unfolding delete_paths
  delete_paths_dry [] s = refl
  delete_paths_dry (p ∷ ps) s = delete_paths_dry ps _ ∙ delete_path_dry p s

  -- A dry run removes nothing.
  pub delete_artifacts_dry :
      (runs_root : Text) (es : List TimeoutEntry) (files : List ℕ)
      → (delete_artifacts named can_remove runs_root true es files).files ≡ files
  unfolding delete_artifacts
  delete_artifacts_dry runs_root es files = delete_paths_dry (all_artifacts runs_root es) _
