-- ===== src/Verifier/Cnf/Layout.antt =====
-- The clauses of a CNF file are those of its literals, however the literals are broken into lines.
use sst_sat.Base.{
  ℕ, ◌+◌, ◌≡◌, refl, true, false, List, [], ◌∷◌, ◌++◌, append_assoc, append-nil, Option, none, some,
  if◌then◌else◌, arith,
}
use sst_sat.Base.Int.{ℤ, pos, eqb_ℤ}
use sst_sat.Base.Result.{ok}
use sst_sat.Python.Text.{Text, codes, starts_with, null, strip, split, lines}
use sst_sat.Python.Number.{int}
use sst_sat.Verifier.Console.{invalid_clause}
use sst_sat.Verifier.Cnf.{
  Clause, Cnf, init, end_clause, add_literal, add_tokens, is_skipped, add_line, add_lines,
  parse_cnf,
}

-- The numbers of a line's tokens, if all are numbers.
abbrev pub ints : List Text → Option (List ℤ)
ints [] = some []
ints (tok ∷ toks) = elim (int tok) [
  | none ↦ none
  | some l ↦ elim (ints toks) [ none ↦ none | some ls ↦ some (l ∷ ls) ]
]

-- The clauses of a sequence of numbers, of which `open_clause` has been read; an empty one is dropped.
unfoldable pub clauses_of : Clause → List ℤ → List Clause
clauses_of open_clause [] = if null open_clause then [] else open_clause ∷ []
clauses_of open_clause (l ∷ ls) =
    let closed = clauses_of [] ls in
    let longer = clauses_of (open_clause ++ (l ∷ [])) ls in
    if eqb_ℤ l (pos 0) then (if null open_clause then closed else open_clause ∷ closed) else longer

-- Lines of comments, and lines of numbers, with the numbers of all.
pub data HasLiterals : List Text → List ℤ → Type 0 where
  none_left : HasLiterals [] []
  comment :
      {line : Text} {rest : List Text} {ls : List ℤ}
      → is_skipped (strip line) ≡ true
      → HasLiterals rest ls
      → HasLiterals (line ∷ rest) ls
  numbers :
      {line : Text} {rest : List Text} {ms ls : List ℤ}
      → is_skipped (strip line) ≡ false
      → starts_with (codes "p cnf") (strip line) ≡ false
      → ints (split (strip line)) ≡ some ms
      → HasLiterals rest ls
      → HasLiterals (line ∷ rest) (ms ++ ls)

unfoldable pub add_literals : List ℤ → Cnf → Cnf
add_literals [] c = c
add_literals (l ∷ ls) c = add_literals ls (add_literal l c)

add_literals-append :
    (ls ms : List ℤ) (c : Cnf) → add_literals (ls ++ ms) c ≡ add_literals ms (add_literals ls c)
unfolding add_literals
add_literals-append [] ms c = refl
add_literals-append (l ∷ ls) ms c = add_literals-append ls ms (add_literal l c)

add_tokens-ints :
    (n : ℕ) (line : Text) (toks : List Text) (ls : List ℤ) (c : Cnf)
    → ints toks ≡ some ls
    → add_tokens n line toks c ≡ add_literals ls c
unfolding add_tokens add_literals
add_tokens-ints n line [] [] c h = refl
add_tokens-ints n line [] (l ∷ ls) c h = cc
add_tokens-ints n line (tok ∷ toks) [] c h = ground arith
add_tokens-ints n line (tok ∷ toks) (l ∷ ls) c h =
    ground (arith, add_tokens-ints n line toks ls (add_literal l c))

add_lines-literals :
    {ls : List Text} {ms : List ℤ} (n : ℕ) (c : Cnf)
    → HasLiterals ls ms
    → add_lines n ls c ≡ ok (add_literals ms c)
unfolding add_lines add_line
add_lines-literals n c none_left = unfold add_literals in refl
add_lines-literals n c (comment skipped rest) = rw skipped (add_lines-literals (n + 1) c rest)
add_lines-literals n c (numbers {line} {rest} {ms} {ls} kept plain read more) =
    rw (kept, plain, add_tokens-ints n (strip line) _ ms c read, add_literals-append ms ls c)
      (add_lines-literals (n + 1) (add_literals ms c) more)

add_literals-clauses_of :
    (ls : List ℤ) (c : Cnf)
    → (end_clause (add_literals ls c)).clauses ≡ c.clauses ++ clauses_of c.pending ls
unfolding add_literals add_literal end_clause clauses_of
add_literals-clauses_of [] c = ground (arith, append-nil c.clauses)
add_literals-clauses_of (l ∷ ls) c = ground (
  arith,
  add_literals-clauses_of ls (add_literal l c),
  append_assoc c.clauses (c.pending ∷ []) (clauses_of [] ls),
)

-- A CNF file whose lines are comments and numbers parses, with no error, to the clauses of its numbers: a
-- clause may go over several lines, several may share a line, and the last needs no terminator.
pub parse_cnf-layout :
    (content : Text) (ms : List ℤ)
    → HasLiterals (lines content) ms
    → (c : Cnf) × (parse_cnf content ≡ ok c) × (c.clauses ≡ clauses_of [] ms)
unfolding parse_cnf
parse_cnf-layout content ms h = (
  end_clause (add_literals ms init),
  rw (add_lines-literals 1 init h),
  add_literals-clauses_of ms init,
)

-- On a line with a token that is no number, the tokens before it are read as usual and stay read, those
-- behind it are dropped, and one warning is printed: a clause that is cut off so goes on in the next line.
pub add_tokens-bad_token :
    (n : ℕ) (line : Text) (toks : List Text) (ls : List ℤ) (bad : Text) (more : List Text) (c : Cnf)
    → ints toks ≡ some ls
    → int bad ≡ none
    → add_tokens n line (toks ++ (bad ∷ more)) c ≡ record (add_literals ls c) {
      warnings = (add_literals ls c).warnings ++ (invalid_clause n line ∷ []);
    }
unfolding add_tokens add_literals
add_tokens-bad_token n line [] [] bad more c h e = rw (e, add_tokens)
add_tokens-bad_token n line [] (l ∷ ls) bad more c h e = cc
add_tokens-bad_token n line (tok ∷ toks) [] bad more c h e = ground arith
add_tokens-bad_token n line (tok ∷ toks) (l ∷ ls) bad more c h e =
    ground (arith, add_tokens-bad_token n line toks ls bad more (add_literal l c))
