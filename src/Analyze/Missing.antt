-- ===== src/Analyze/Missing.antt =====
-- The runs that tools/analyze_summary.py reports as missing.
use sst_sat.Base.{
  Option, none, some, ◌∙◌, sym, ap, ℕ, zero, suc, ◌+◌, ◌≡◌, refl, arith, Bool, false, not, ◌&&◌,
  ◌||◌, List, [], ◌∷◌, ◌++◌, ltb, leb, ◌==◌,
}
use sst_sat.Base.Int.{ℤ, pos, eqb_ℤ, eqb_ℤ_iff}
use sst_sat.Base.Dict.{lookup, lookup-insert}
use sst_sat.Python.Number.{int}
use sst_sat.Python.Regex.{Found, re_match, group_of}
use mathlib.Core.Option.{some-injective}
use sst_sat.Python.Text.{Text, Text_eq, eq_text, eq_text_iff, strip, lines}
use sst_sat.Analyze.{
  has_seed, add_seed, has_test, seeds_of, Completed, Summary, seeds_pattern, count_pattern,
  line_pattern, add_run, add_found, read_found, infer_all_tests, seeds_or_four, read_line,
  read_lines, no_summary, parse_summary, missing_seeds, missing_runs, Entries, Report, analyze,
}

abbrev pub has_run : Text → ℕ → List (Text × ℕ) → Bool
has_run t s [] = false
has_run t s ((u, n) ∷ runs) = (eq_text u t && (n == s)) || has_run t s runs

has_run-append :
    (t : Text) (s : ℕ) (xs ys : List (Text × ℕ))
    → has_run t s (xs ++ ys) ≡ has_run t s xs || has_run t s ys
has_run-append t s [] ys = refl
has_run-append t s ((u, n) ∷ xs) ys = ground (arith, has_run-append t s xs ys)

has_run-missing_seeds :
    (t u : Text) (s n left : ℕ) (seeds : List ℤ)
    → has_run t s (missing_seeds u seeds n left)
      ≡ (eq_text u t && ((leb n s && ltb s (n + left)) && not (has_seed (pos s) seeds)))
unfolding missing_seeds
has_run-missing_seeds t u s n zero seeds = ground arith
has_run-missing_seeds t u s n (suc left) seeds =
    ground (arith, has_run-missing_seeds t u s (suc n) left seeds)

has_run-missing_runs :
    (t : Text) (s seeds : ℕ) (completed : Completed) (tests : List Text)
    → has_run t s (missing_runs seeds completed tests)
      ≡ (has_test t tests && (ltb s seeds && not (has_seed (pos s) (seeds_of t completed))))
unfolding missing_runs
has_run-missing_runs t s seeds completed [] = refl
has_run-missing_runs t s seeds completed (u ∷ tests) = ground (
  arith,
  has_run-append t s (missing_seeds u (seeds_of u completed) 0 seeds)
      (missing_runs seeds completed tests),
  has_run-missing_seeds t u s 0 seeds (seeds_of u completed),
  has_run-missing_runs t s seeds completed tests,
  eq_text_iff u t,
)

-- Whether a line of the summary says that a test with a seed has passed or failed.
abbrev is_number : ℕ → Option ℤ → Bool
is_number s none = false
is_number s (some n) = eqb_ℤ n (pos s)

unfoldable pub names_run : Text → ℕ → Option Found → Option Found → Option Found → Bool
unfolding group_of
names_run t s (some m) count run = false
names_run t s none (some m) run = false
names_run t s none none none = false
names_run t s none none (some m) = eq_text (group_of 1 m) t && is_number s (int (group_of 2 m))

unfoldable pub reports_run : Text → ℕ → Text → Bool
unfolding re_match names_run
reports_run t s line =
    names_run t s (re_match seeds_pattern line) (re_match count_pattern line)
      (re_match line_pattern line)

unfoldable pub some_line_reports : Text → ℕ → List Text → Bool
unfolding reports_run strip
some_line_reports t s [] = false
some_line_reports t s (raw ∷ raws) = reports_run t s (strip raw) || some_line_reports t s raws

has_seed-append :
    (s n : ℤ) (seeds : List ℤ) → has_seed s (seeds ++ (n ∷ [])) ≡ has_seed s seeds || eqb_ℤ n s
has_seed-append s n [] = ground arith
has_seed-append s n (m ∷ seeds) = ground (arith, has_seed-append s n seeds)

has_seed-add_seed :
    (s n : ℤ) (seeds : List ℤ) → has_seed s (add_seed n seeds) ≡ has_seed s seeds || eqb_ℤ n s
has_seed-add_seed s n seeds = ground (arith, has_seed-append s n seeds, eqb_ℤ_iff n s)

-- The runs that are done, with one more.
has_seed-add_run :
    (t u : Text) (s n : ℤ) (completed : Completed)
    → has_seed s (seeds_of t (add_run u n completed))
      ≡ has_seed s (seeds_of t completed) || (eq_text u t && eqb_ℤ n s)
unfolding add_run
has_seed-add_run t u s n completed = ground (
  arith,
  lookup-insert u t (add_seed n (seeds_of u completed)) completed,
  has_seed-add_seed s n (seeds_of u completed),
  eq_text_iff u t,
)

-- Whether a test with a seed is done.
abbrev is_done : Text → ℕ → Summary → Bool
is_done t s sm = has_seed (pos s) (seeds_of t sm.completed)

or_and_false : (a b : Bool) → a ≡ a || (b && false)
or_and_false a b = ground arith

is_done-add_found :
    (t u : Text) (s : ℕ) (n : Option ℤ) (sm : Summary)
    → is_done t s (add_found u n sm) ≡ is_done t s sm || (eq_text u t && is_number s n)
unfolding add_found
is_done-add_found t u s none sm = or_and_false (is_done t s sm) (eq_text u t)
is_done-add_found t u s (some n) sm = has_seed-add_run t u (pos s) n sm.completed

or_false : (b : Bool) → b ≡ b || false
or_false b = ground arith

is_done-read_found :
    (t : Text) (s : ℕ) (seeds count run : Option Found) (sm : Summary)
    → is_done t s (read_found seeds count run sm) ≡ is_done t s sm || names_run t s seeds count run
unfolding read_found names_run
is_done-read_found t s (some m) count run sm = or_false (is_done t s sm)
is_done-read_found t s none (some m) run sm = or_false (is_done t s sm)
is_done-read_found t s none none none sm = or_false (is_done t s sm)
is_done-read_found t s none none (some m) sm =
    is_done-add_found t (group_of 1 m) s (int (group_of 2 m)) sm

or_assoc : (a b c : Bool) → (a || b) || c ≡ a || (b || c)
or_assoc a b c = ground arith

is_done-read_lines :
    (t : Text) (s : ℕ) (raws : List Text) (sm : Summary)
    → is_done t s (read_lines raws sm) ≡ is_done t s sm || some_line_reports t s raws
unfolding read_lines some_line_reports read_line reports_run
is_done-read_lines t s [] sm = or_false (is_done t s sm)
is_done-read_lines t s (raw ∷ raws) sm =
    is_done-read_lines t s raws (read_line (strip raw) sm)
    ∙ ap (λ b. b || some_line_reports t s raws)
        (is_done-read_found t s (re_match seeds_pattern (strip raw))
          (re_match count_pattern (strip raw)) (re_match line_pattern (strip raw)) sm)
    ∙ or_assoc (is_done t s sm) (reports_run t s (strip raw)) (some_line_reports t s raws)

is_done-parse_summary :
    (t : Text) (s : ℕ) (content : Text)
    → is_done t s (parse_summary content) ≡ some_line_reports t s (lines content)
unfolding parse_summary lookup
is_done-parse_summary t s content = is_done-read_lines t s (lines content) no_summary

-- In the report on a summary, a run is missing exactly if its test is one of the tests, its seed is below
-- the number of seeds, and no line of the summary says that it has passed or failed.
pub analyze-has_run :
    (no_dry_run : Bool) (run_dir content : Text) (entries : Entries) (r : Report)
    → analyze no_dry_run run_dir entries (some content) ≡ some r
    → (t : Text) (s : ℕ)
    → has_run t s r.missing
      ≡ (has_test t r.tests && (ltb s r.seeds && not (some_line_reports t s (lines content))))
unfolding analyze
analyze-has_run no_dry_run run_dir content entries r h t s =
    let sm = parse_summary content in
    let tests = infer_all_tests entries sm.completed in
    let seeds = seeds_or_four sm.seeds_declared in
    let same = sym (some-injective _ r h) in
    ap (λ q. has_run t s q.missing) same
    ∙ has_run-missing_runs t s seeds sm.completed tests
    ∙ ap (λ b. has_test t tests && (ltb s seeds && not b)) (is_done-parse_summary t s content)
    ∙ ap (λ q. has_test t q.tests && (ltb s q.seeds && not (some_line_reports t s (lines content))))
        (sym same)
