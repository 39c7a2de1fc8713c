-- ===== src/Verifier/Cnf/WellFormed.antt =====
-- What every parsed formula satisfies, and what the line breaks of a CNF file do not change.
use sst_sat.Base.{
  ℕ, ◌+◌, ◌≡◌, ◌≢◌, refl, ap, List, [], ◌∷◌, Option, none, some, All, All-append, arith, Bool-cases,
  inl, inr,
}
use sst_sat.Base.Int.{ℤ, pos, eqb_ℤ, eqb_ℤ_iff}
use sst_sat.Base.Result.{Result, ok, raise, ◌>>=◌}
use sst_sat.Python.Text.{Text, codes, starts_with, null, strip, split, lines}
use sst_sat.Python.Number.{int}
use sst_sat.Verifier.Console.{Exit, bad_problem_number}
use sst_sat.Verifier.Cnf.{
  Clause, Cnf, init, end_clause, add_literal, add_tokens, problem_line, is_skipped, add_line,
  add_lines, parse_cnf,
}

abbrev pub IsNonzero : Clause → Type 0
IsNonzero = All (λ l. l ≢ pos 0)

-- A clause of the result has a literal, and none of its literals is the terminator.
abbrev pub IsClause : Clause → Type 0
IsClause c = (c ≢ []) × IsNonzero c

record IsSound (c : Cnf) : Type 0 where
  read : All IsClause c.clauses
  open_clause : IsNonzero c.pending

end_clause-IsSound : (c : Cnf) → IsSound c → IsSound (end_clause c)
unfolding end_clause
end_clause-IsSound c h = elim (Bool-cases (null c.pending)) [
  | inl t ↦ rw t h
  | inr f ↦ rw f (record {
    read = All-append IsClause c.clauses _ h.read ((λ e. cc (ap null e), h.open_clause), tt);
    open_clause = tt;
  })
]

add_literal-IsSound : (l : ℤ) (c : Cnf) → IsSound c → IsSound (add_literal l c)
unfolding add_literal
add_literal-IsSound l c h = elim (Bool-cases (eqb_ℤ l (pos 0))) [
  | inl t ↦ rw t (end_clause-IsSound c h)
  | inr f ↦ rw f (record {
    read = h.read;
    open_clause =
        All-append (λ l. l ≢ pos 0) c.pending _ h.open_clause
          ((λ e. cc ((eqb_ℤ_iff l (pos 0)).1 e)), tt);
  })
]

-- One token, which is a number or not; the later tokens keep the invariant.
token-IsSound :
    (n : ℕ) (line tok : Text) (toks : List Text) (c : Cnf) (o : Option ℤ)
    → int tok ≡ o
    → IsSound c
    → ((c' : Cnf) → IsSound c' → IsSound (add_tokens n line toks c'))
    → IsSound (add_tokens n line (tok ∷ toks) c)
unfolding add_tokens
token-IsSound n line tok toks c none e h later =
    rw (e, add_tokens) (record { read = h.read; open_clause = h.open_clause })
token-IsSound n line tok toks c (some l) e h later =
    rw (e, add_tokens) (later (add_literal l c) (add_literal-IsSound l c h))

add_tokens-IsSound :
    (n : ℕ) (line : Text) (toks : List Text) (c : Cnf)
    → IsSound c
    → IsSound (add_tokens n line toks c)
add_tokens-IsSound n line [] c h = unfold add_tokens in h
add_tokens-IsSound n line (tok ∷ toks) c h =
    token-IsSound n line tok toks c _ refl h (λ c' h'. add_tokens-IsSound n line toks c' h')

-- A result that is returned keeps the invariant.
abbrev Keeps : Result Exit Cnf → Type 0
Keeps (ok c) = IsSound c
Keeps (raise e) = Unit

problem_line-Keeps :
    (n : ℕ) (toks : List Text) (c : Cnf) → IsSound c → Keeps (problem_line n toks c)
unfolding problem_line
problem_line-Keeps n (p ∷ cnf ∷ vars ∷ clauses ∷ []) c h = numbers (int vars) (int clauses)
  where
    numbers :
        (v m : Option ℤ)
        → Keeps (elim v [
          | none ↦ raise bad_problem_number
          | some x ↦ elim m [
            | none ↦ raise bad_problem_number
            | some y ↦ ok (record c { num_vars = x; num_clauses = y })
          ]
        ])
    numbers none m = tt
    numbers (some x) none = tt
    numbers (some x) (some y) = record { read = h.read; open_clause = h.open_clause }
problem_line-Keeps n _ c h = tt

add_line-Keeps : (n : ℕ) (line : Text) (c : Cnf) → IsSound c → Keeps (add_line n line c)
unfolding add_line
add_line-Keeps n line c h = elim (Bool-cases (is_skipped line)) [
  | inl t ↦ rw t h
  | inr f ↦ rw f (elim (Bool-cases (starts_with (codes "p cnf") line)) [
    | inl t ↦ rw t (problem_line-Keeps n (split line) c h)
    | inr g ↦ rw g (add_tokens-IsSound n line (split line) c h)
  ])
]

Keeps-bind :
    (r : Result Exit Cnf) (f : Cnf → Result Exit Cnf)
    → Keeps r
    → ((c : Cnf) → IsSound c → Keeps (f c))
    → Keeps (r >>= f)
Keeps-bind (ok c) f h k = k c h
Keeps-bind (raise e) f h k = tt

add_lines-Keeps : (n : ℕ) (ls : List Text) (c : Cnf) → IsSound c → Keeps (add_lines n ls c)
unfolding add_lines
add_lines-Keeps n [] c h = h
add_lines-Keeps n (line ∷ ls) c h =
    Keeps-bind (add_line n (strip line) c) (λ c'. add_lines (n + 1) ls c')
      (add_line-Keeps n (strip line) c h) (λ c' h'. add_lines-Keeps (n + 1) ls c' h')

parse_cnf-Keeps : (content : Text) → Keeps (parse_cnf content)
unfolding parse_cnf
parse_cnf-Keeps content =
    Keeps-bind (add_lines 1 (lines content) init) (λ c. ok (end_clause c))
      (add_lines-Keeps 1 (lines content) init (record { read = tt; open_clause = tt }))
      (λ c h. end_clause-IsSound c h)

pending-end_clause : (c : Cnf) → (end_clause c).pending ≡ []
unfolding end_clause
pending-end_clause c = ground arith

-- Of whatever text: if the parser returns, every clause has a literal and none has the terminator 0.
pub parse_cnf-IsClause :
    (content : Text) (c : Cnf) → parse_cnf content ≡ ok c → All IsClause c.clauses
parse_cnf-IsClause content c h = (rw h at (parse_cnf-Keeps content)).read
