-- ===== src/Cleanup.antt =====
-- tools/cleanup_timeouts.py: `parse_timeouts` and `delete_artifacts`.
pub mod Removed
mod Runs
use sst_sat.Base.{
  ℕ, ◌+◌, ◌≡◌, refl, ◌∙◌, arith, Bool, true, false, ◌||◌, Bool-cases, inl, inr, Option, some, none,
  List, [], ◌∷◌, ◌++◌, if◌then◌else◌, ◌==◌,
}
use sst_sat.Base.Int.{ℤ}
use sst_sat.Python.Text.{
  Text, codes, eq_text, eq_text_iff, starts_with, ends_with, has_text, null, strip, lines,
}
use sst_sat.Python.Path.{join_path}
use sst_sat.Python.Number.{int, str}
use sst_sat.Python.Regex.{
  Regex, lazy, group, ◌⨟◌, lit, digits1, any_but_newline, re_match, group_of,
}

pub record TimeoutEntry : Type 0 where
  pub name : Text
  pub seed : ℤ

unfoldable pub artifact_paths : Text → TimeoutEntry → List Text
unfolding join_path str
artifact_paths runs_root e =
    let seed_dir = join_path runs_root (codes "seed" ++ str e.seed) in
    join_path seed_dir (e.name ++ codes ".log")
    ∷ join_path seed_dir (e.name ++ codes ".stats.csv")
    ∷ []

-- ^(?P<name>.+?) \(seed (?P<seed>\d+)\): TIMEOUT
abbrev timeout_pattern : Regex
timeout_pattern =
    group 1 (any_but_newline ⨟ lazy any_but_newline)
    ⨟ lit " (seed "
    ⨟ group 2 digits1
    ⨟ lit "): TIMEOUT"

-- One line: its entry, if it has one. Without the word TIMEOUT, or empty, it has none.
unfoldable pub entry_of : Text → Option TimeoutEntry
unfolding re_match group_of
entry_of line =
    if null line
    then none
    else if has_text (codes "TIMEOUT") line
    then elim (re_match timeout_pattern line) [
      | none ↦ none
      | some m ↦ elim (int (group_of 2 m)) [
        | none ↦ none
        | some n ↦ some (record { name = group_of 1 m; seed = n })
      ]
    ]
    else none

unfoldable pub entries_of : List Text → List TimeoutEntry
unfolding entry_of strip
entries_of [] = []
entries_of (line ∷ ls) = elim (entry_of (strip line)) [
  | none ↦ entries_of ls
  | some e ↦ e ∷ entries_of ls
]

-- The contents of the summary file.
unfoldable pub parse_timeouts : Text → List TimeoutEntry
unfolding entries_of lines
parse_timeouts content = entries_of (lines content)

-- What is printed.
pub data Note : Type 0 where
  would_delete deleted_file not_deleted missing_file : Text → Note

-- The files that exist, and the local variables of the loop. A file stands for the directory entry that
-- a path names, so that two paths can name one file.
pub record Cleaning : Type 0 where
  pub files : List ℕ
  pub deleted : ℕ
  pub missing : ℕ
  pub missing_files : List Text
  pub notes : List Note

abbrev pub has_file : ℕ → List ℕ → Bool
has_file f [] = false
has_file f (g ∷ gs) = (g == f) || has_file f gs

unfoldable pub remove_file : ℕ → List ℕ → List ℕ
remove_file f [] = []
remove_file f (g ∷ gs) = let rest = remove_file f gs in if g == f then rest else g ∷ rest

unfoldable pub all_artifacts : Text → List TimeoutEntry → List Text
unfolding artifact_paths
all_artifacts runs_root [] = []
all_artifacts runs_root (e ∷ es) = artifact_paths runs_root e ++ all_artifacts runs_root es

-- `named` gives the file that a path names, and `can_remove` says if `os.remove` succeeds.
module _ (named : Text → ℕ) (can_remove : Text → Bool) where
  -- One path.
  unfoldable pub delete_path : Bool → Text → Cleaning → Cleaning
  unfolding remove_file
  delete_path dry_run p s =
      if has_file (named p) s.files
      then (if dry_run
          then record s { notes = s.notes ++ (would_delete p ∷ []) }
          else if can_remove p
          then record s {
            files = remove_file (named p) s.files;
            deleted = s.deleted + 1;
            notes = s.notes ++ (deleted_file p ∷ []);
          }
          else record s { notes = s.notes ++ (not_deleted p ∷ []) })
      else record s {
        missing = s.missing + 1;
        missing_files = s.missing_files ++ (p ∷ []);
        notes = s.notes ++ (missing_file p ∷ []);
      }

  unfoldable pub delete_paths : Bool → List Text → Cleaning → Cleaning
  unfolding delete_path
  delete_paths dry_run [] s = s
  delete_paths dry_run (p ∷ ps) s = delete_paths dry_run ps (delete_path dry_run p s)

  -- The loops over the entries and over the two paths of each.
  unfoldable pub delete_artifacts : Text → Bool → List TimeoutEntry → List ℕ → Cleaning
  unfolding delete_paths all_artifacts
  delete_artifacts runs_root dry_run es files =
      delete_paths dry_run (all_artifacts runs_root es)
        (record { files = files; deleted = 0; missing = 0; missing_files = []; notes = [] })
