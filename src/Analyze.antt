-- ===== src/Analyze.antt =====
-- tools/analyze_summary.py: which runs of a summary are missing.
mod Runs
pub mod Missing
use sst_sat.Base.{
  ℕ, zero, suc, ◌+◌, ◌*◌, Bool, true, false, not, ◌||◌, Option, some, none, List, [], ◌∷◌, ◌++◌,
  map, length, drop, take, ◌-◌, if◌then◌else◌,
}
use sst_sat.Base.Int.{ℤ, pos, pos_part, eqb_ℤ}
use sst_sat.Base.Dict.{Dict, lookup, insert}
use Prim.Native.String.{String}
use sst_sat.Python.Text.{Text, Text_eq, codes, eq_text, starts_with, ends_with, strip, lines, null}
use sst_sat.Python.Number.{int, str_ℕ}
use sst_sat.Python.Path.{join_path}
use sst_sat.Python.Sorted.{sorted, le_text}
use sst_sat.Python.Regex.{
  Regex, Found, star, alt, group, boundary, ◌⨟◌, lit, digits1, any_but_newline, re_match, group_of,
}
use mathlib.Core.Option.{get_or}

-- ^(.*) \(seed (\d+)\): (PASSED|FAILED)\b
abbrev pub line_pattern : Regex
line_pattern =
    group 1 (star any_but_newline)
    ⨟ lit " (seed "
    ⨟ group 2 digits1
    ⨟ lit "): "
    ⨟ group 3 (alt (lit "PASSED") (lit "FAILED"))
    ⨟ boundary

-- ^Number of random seeds: (\d+)\b and ^Found (\d+) benchmark files to test\b
abbrev pub seeds_pattern : Regex
seeds_pattern = lit "Number of random seeds: " ⨟ group 1 digits1 ⨟ boundary

abbrev pub count_pattern : Regex
count_pattern = lit "Found " ⨟ group 1 digits1 ⨟ lit " benchmark files to test" ⨟ boundary

-- A set of seeds, with no seed twice, and the tests with those that are done.
abbrev pub has_seed : ℤ → List ℤ → Bool
has_seed s [] = false
has_seed s (t ∷ ts) = eqb_ℤ t s || has_seed s ts

abbrev pub add_seed : ℤ → List ℤ → List ℤ
add_seed s seeds = if has_seed s seeds then seeds else seeds ++ (s ∷ [])

abbrev pub Completed : Type 0
Completed = Dict Text (List ℤ)

-- completed.get(test, set())
abbrev pub seeds_of : Text → Completed → List ℤ
seeds_of test completed = get_or (lookup test completed) []

pub record Summary : Type 0 where
  pub seeds_declared : Option ℤ
  pub tests_declared : Option ℤ
  pub completed : Completed

-- completed[test].add(seed)
unfoldable pub add_run : Text → ℤ → Completed → Completed
unfolding lookup insert
add_run test seed completed = insert test (add_seed seed (seeds_of test completed)) completed

-- A group of digits is always a number.
unfoldable pub add_found : Text → Option ℤ → Summary → Summary
unfolding add_run
add_found test none s = s
add_found test (some seed) s = record s { completed = add_run test seed s.completed }

-- What the loop does with the matches of a line with the three patterns.
unfoldable pub read_found : Option Found → Option Found → Option Found → Summary → Summary
unfolding group_of add_found
read_found (some m) count run s = record s { seeds_declared = int (group_of 1 m) }
read_found none (some m) run s = record s { tests_declared = int (group_of 1 m) }
read_found none none none s = s
read_found none none (some m) s = add_found (group_of 1 m) (int (group_of 2 m)) s

-- The body of the loop.
unfoldable pub read_line : Text → Summary → Summary
unfolding re_match read_found
read_line line s =
    read_found (re_match seeds_pattern line) (re_match count_pattern line)
      (re_match line_pattern line) s

unfoldable pub read_lines : List Text → Summary → Summary
unfolding read_line strip
read_lines [] s = s
read_lines (raw ∷ raws) s = read_lines raws (read_line (strip raw) s)

abbrev pub no_summary : Summary
no_summary = record { seeds_declared = none; tests_declared = none; completed = [] }

unfoldable pub parse_summary : Text → Summary
unfolding read_lines lines
parse_summary content = read_lines (lines content) no_summary

abbrev pub has_test : Text → List Text → Bool
has_test t [] = false
has_test t (u ∷ us) = eq_text u t || has_test t us

abbrev pub add_test : Text → List Text → List Text
add_test t tests = if has_test t tests then tests else tests ++ (t ∷ [])

-- name[:-len(suffix)], for a name that ends with the suffix
abbrev without_suffix : Text → Text → Text
without_suffix suffix name = take (length name - length suffix) name

unfoldable pub base_of : Text → Option Text
base_of name =
    if ends_with (codes ".stats.csv") name
    then some (without_suffix (codes ".stats.csv") name)
    else if ends_with (codes ".log") name
    then some (without_suffix (codes ".log") name)
    else none

abbrev add_base : Option Text → List Text → List Text
add_base none tests = tests
add_base (some t) tests = add_test t tests

unfoldable pub add_names : List Text → List Text → List Text
unfolding base_of
add_names [] tests = tests
add_names (name ∷ names) tests = add_names names (add_base (base_of name) tests)

-- The entries of the run directory; a folder has the names in it.
abbrev pub Entries : Type 0
Entries = List (Text × Option (List Text))

-- `p.is_dir() and p.name.startswith('seed')`. The order of the folders does not show in a set.
unfoldable pub add_folders : Entries → List Text → List Text
unfolding add_names
add_folders [] tests = tests
add_folders ((name, none) ∷ entries) tests = add_folders entries tests
add_folders ((name, some names) ∷ entries) tests =
    add_folders entries (if starts_with (codes "seed") name then add_names names tests else tests)

abbrev keys : Completed → List Text
keys [] = []
keys ((test, seeds) ∷ completed) = test ∷ keys completed

unfoldable pub infer_all_tests : Entries → Completed → List Text
unfolding add_folders sorted le_text
infer_all_tests entries completed =
    let tests = add_folders entries [] in
    sorted le_text (if null tests then keys completed else tests)

-- The loop over the seeds of a test, and the loop over the tests.
unfoldable pub missing_seeds : Text → List ℤ → ℕ → ℕ → List (Text × ℕ)
missing_seeds test seeds s zero = []
missing_seeds test seeds s (suc left) =
    let rest = missing_seeds test seeds (suc s) left in
    if has_seed (pos s) seeds then rest else (test, s) ∷ rest

unfoldable pub missing_runs : ℕ → Completed → List Text → List (Text × ℕ)
unfolding missing_seeds lookup
missing_runs seeds completed [] = []
missing_runs seeds completed (test ∷ tests) =
    missing_seeds test (seeds_of test completed) 0 seeds ++ missing_runs seeds completed tests

-- `{prefix}rm -f '{base}.log' '{base}.stats.csv'`
unfoldable pub removal : Bool → Text → Text × ℕ → Text
unfolding join_path str_ℕ
removal no_dry_run run_dir (test, s) =
    let base = join_path (join_path run_dir (codes "seed" ++ str_ℕ s)) test in
    (if no_dry_run then [] else codes "echo ")
    ++ (codes "rm -f '" ++ (base ++ (codes ".log' '" ++ (base ++ codes ".stats.csv'"))))

-- What is printed.
pub record Report : Type 0 where
  pub seeds : ℕ
  pub declared_tests : Option ℤ
  pub tests : List Text
  pub completed_pairs : ℕ
  pub expected_pairs : ℕ
  pub missing : List (Text × ℕ)
  pub commands : List Text

abbrev pairs : Completed → ℕ
pairs [] = 0
pairs ((test, seeds) ∷ completed) = length seeds + pairs completed

-- Four seeds where the summary declares none.
abbrev pub seeds_or_four : Option ℤ → ℕ
seeds_or_four none = 4
seeds_or_four (some n) = pos_part n

-- `main`, on the contents of the summary and the entries of the run directory; `none` is the exit
-- with code 2.
unfoldable pub analyze : Bool → Text → Entries → Option Text → Option Report
unfolding parse_summary infer_all_tests missing_runs removal
analyze no_dry_run run_dir entries none = none
analyze no_dry_run run_dir entries (some content) =
    let s = parse_summary content in
    let seeds = seeds_or_four s.seeds_declared in
    let tests = infer_all_tests entries s.completed in
    let missing = missing_runs seeds s.completed tests in
    some (record {
      seeds = seeds;
      declared_tests = s.tests_declared;
      tests = tests;
      completed_pairs = pairs s.completed;
      expected_pairs = length tests * seeds;
      missing = missing;
      commands = map (removal no_dry_run run_dir) missing;
    })
