-- ===== src/Results/Seeds/Names.antt =====
-- The names under which the scores of the seeds are printed.
use mathlib.Core.Option.{some-injective}
use sst_sat.Base.{
  Option, ℕ, suc, ◌+◌, ◌≡◌, sym, ap, ap₂, ◌∙◌, arith, false, some, List, [], ◌∷◌, map, get_elem?,
}
use sst_sat.Base.Lists.{All}
use sst_sat.Python.Text.{Text, null}
use sst_sat.Log.Value.{Floats, Stats, ◌>>=◌, >>=-some}
use sst_sat.Log.Number.{Arithmetic}
use sst_sat.Results.Score.{Par2, compute_par2_and_solved}
use sst_sat.Results.Seeds.{SeedFolder, seed_results, seed_label, seed_scores}

abbrev pub HasResults : {F : Type 0} → SeedFolder F → Type 0
HasResults d = null d.results ≡ false

module _ (fl : Floats) (ar : Arithmetic fl.Float) (timeout_seconds : fl.Float) where
  -- A name with a score that is printed, and the name of a folder with the score of its results.
  abbrev pub printed : Text × Par2 fl.Float → Text × Option (Par2 fl.Float)
  printed (name, p) = (name, some p)

  abbrev pub own_score : SeedFolder fl.Float → Text × Option (Par2 fl.Float)
  own_score d = (d.name, compute_par2_and_solved fl ar timeout_seconds d.results)

  seed_scores-cons :
      (all : List (SeedFolder fl.Float)) (n : ℕ) (rs : List (Stats fl.Float))
      (rest : List (List (Stats fl.Float))) (ps : List (Text × Par2 fl.Float))
      → seed_scores fl ar timeout_seconds all n (rs ∷ rest) ≡ some ps
      → (p : Par2 fl.Float) × (more : List (Text × Par2 fl.Float)) × (seed_scores fl ar
            timeout_seconds all
            (suc n)
            rest
          ≡ some more)
        × (compute_par2_and_solved fl ar timeout_seconds rs ≡ some p)
        × ((seed_label all n, p) ∷ more ≡ ps)
  unfolding seed_scores
  seed_scores-cons all n rs rest ps h =
      let (p, scored, h2) =
        >>=-some (compute_par2_and_solved fl ar timeout_seconds rs)
          (λ p.
            seed_scores fl ar timeout_seconds all (suc n) rest
            >>= (λ ps. some ((seed_label all n, p) ∷ ps)))
          ps h in
      let (more, e, h3) =
        >>=-some (seed_scores fl ar timeout_seconds all (suc n) rest)
          (λ ps. some ((seed_label all n, p) ∷ ps)) ps h2 in
      (p, more, e, scored, some-injective _ ps h3)

  seed_label-at :
      (all : List (SeedFolder fl.Float)) (n : ℕ) (d : SeedFolder fl.Float)
      → get_elem? all n ≡ some d
      → seed_label all n ≡ d.name
  unfolding seed_label
  seed_label-at all n d h = ground (arith, h)

  seed_scores-nil :
      (all : List (SeedFolder fl.Float)) (n : ℕ) (ps : List (Text × Par2 fl.Float))
      → seed_scores fl ar timeout_seconds all n [] ≡ some ps
      → [] ≡ ps
  unfolding seed_scores
  seed_scores-nil all n ps h = some-injective [] ps h

  seed_scores-from :
      (all ds : List (SeedFolder fl.Float)) (n : ℕ) (ps : List (Text × Par2 fl.Float))
      → All HasResults ds
      → ((k : ℕ) → get_elem? all (n + k) ≡ get_elem? ds k)
      → seed_scores fl ar timeout_seconds all n (seed_results ds) ≡ some ps
      → map printed ps ≡ map own_score ds
  seed_scores-from all [] n ps full at h = ap (map printed) (sym (seed_scores-nil all n ps h))
  seed_scores-from all (d ∷ ds) n ps (here, full) at h =
      let (p, more, e, scored, e2) =
        seed_scores-cons all n d.results (seed_results ds) ps (ground (arith, here, h)) in
      let label = seed_label-at all n d (ap (get_elem? all) (omega arith) ∙ at 0) in
      let names =
        seed_scores-from all ds (suc n) more full
          (λ k. ap (get_elem? all) (omega arith) ∙ at (suc k)) e in
      ap (map printed) (sym e2) ∙ ap₂ ◌∷◌ (ap₂ (λ a b. (a, b)) label (sym scored)) names

  -- If each seed folder has a result and no score raises an exception, one score is printed for each
  -- folder, in their order, and it is
  -- the score of the folder's own results under the folder's name.
  pub seed_scores-names :
      (ds : List (SeedFolder fl.Float)) (ps : List (Text × Par2 fl.Float))
      → All HasResults ds
      → seed_scores fl ar timeout_seconds ds 0 (seed_results ds) ≡ some ps
      → map printed ps ≡ map own_score ds
  seed_scores-names ds ps full h =
      seed_scores-from ds ds 0 ps full (λ k. ap (get_elem? ds) (omega arith)) h
