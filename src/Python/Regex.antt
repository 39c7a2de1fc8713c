-- ===== src/Python/Regex.antt =====
-- What the tools use of Python's `re`: patterns as a data type, and matching by backtracking in the
-- order of `re`, over the code points of a text.
mod Tests
use sst_sat.Base.{
  ℕ, zero, suc, ◌+◌, ◌-◌, Bool, true, false, not, ◌&&◌, ◌||◌, List, [], ◌∷◌, ◌++◌, Option, none,
  some, length, take, ltb, leb, ◌==◌, if◌then◌else◌,
}
use sst_sat.Base.Dict.{lookup, ℕ_eq}
use sst_sat.Python.Text.{Text, codes, is_space, null}
use sst_sat.Python.Number.{digit_value}
use Prim.Native.String.{String}
use mathlib.Core.Bool.{xor}

pub data Regex : Type 0 where
  -- the empty pattern, and one character of a class
  eps : Regex
  one : (ℕ → Bool) → Regex
  seq alt : Regex → Regex → Regex
  -- `(…)*` and `(…)*?`
  star lazy : Regex → Regex
  group : ℕ → Regex → Regex
  -- `^` and `$` under MULTILINE, `$` without it, `\Z`, and `\b`
  line_start line_end last_end text_end boundary : Regex

-- Where a match stands: the character before, the text to come, and the groups, the last one first.
pub record Found : Type 0 where
  pub before : Option ℕ
  pub rest : Text
  pub groups : List (ℕ × Text)

-- [A-Za-z0-9_]: of `\w`, the part in ASCII.
unfoldable pub is_word : ℕ → Bool
is_word c =
    (leb b'a' c && leb c b'z')
    || ((leb b'A' c && leb c b'Z') || ((leb b'0' c && leb c b'9') || (c == b'_')))

abbrev word_at : Option ℕ → Bool
word_at none = false
word_at (some c) = is_word c

abbrev pub head_of : Text → Option ℕ
head_of [] = none
head_of (c ∷ t) = some c

abbrev is_newline : Option ℕ → Bool
is_newline none = true
is_newline (some c) = c == 10

-- The tests of the anchors.
unfoldable pub at_line_start : Found → Bool
at_line_start f = is_newline f.before

unfoldable pub at_line_end : Found → Bool
at_line_end f = is_newline (head_of f.rest)

unfoldable pub at_last_end : Found → Bool
at_last_end f = is_newline (head_of f.rest) && ltb (length f.rest) 2

unfoldable pub at_boundary : Found → Bool
at_boundary f = xor (word_at f.before) (word_at (head_of f.rest))

abbrev pub Continue : Type 0
Continue = Found → Option Found

abbrev pub Matcher : Type 0
Matcher = Found → Continue → Option Found

-- One more round if the last one took a character, or else what follows the loop.
unfoldable pub greedy : Matcher → ℕ → Matcher
greedy m zero f k = k f
greedy m (suc fuel) f k =
    elim (m f (λ g. elim (ltb (length g.rest) (length f.rest)) [
      | true ↦ greedy m fuel g k
      | false ↦ none
    ])) [ some r ↦ some r | none ↦ k f ]

-- The other order.
unfoldable pub reluctant : Matcher → ℕ → Matcher
reluctant m zero f k = k f
reluctant m (suc fuel) f k = elim (k f) [
  | some r ↦ some r
  | none ↦ m f (λ g. elim (ltb (length g.rest) (length f.rest)) [
    | true ↦ reluctant m fuel g k
    | false ↦ none
  ])
]

abbrev pub assert : Bool → Matcher
assert b f k = elim b [ true ↦ k f | false ↦ none ]

-- One character.
unfoldable pub take_one : (ℕ → Bool) → Option ℕ → Text → List (ℕ × Text) → Continue → Option Found
take_one p before [] groups k = none
take_one p before (c ∷ t) groups k = elim (p c) [
  | true ↦ k (record { before = some c; rest = t; groups = groups })
  | false ↦ none
]

-- The text of a group that began at `f` and ends at `g`.
abbrev pub captured : ℕ → Found → Found → Found
captured n f g = record g { groups = (n, take (length f.rest - length g.rest) f.rest) ∷ g.groups }

-- A round of a loop takes a character, so there are at most as many as characters to come.
unfoldable pub run : Regex → Matcher
unfolding greedy reluctant take_one at_line_start at_line_end at_last_end at_boundary
run eps f k = k f
run (one p) f k = take_one p f.before f.rest f.groups k
run (seq a b) f k = run a f (λ g. run b g k)
run (alt a b) f k = elim (run a f k) [ some r ↦ some r | none ↦ run b f k ]
run (star a) f k = greedy (run a) (length f.rest) f k
run (lazy a) f k = reluctant (run a) (length f.rest) f k
run (group n a) f k = run a f (λ g. k (captured n f g))
run line_start f k = assert (at_line_start f) f k
run line_end f k = assert (at_line_end f) f k
run last_end f k = assert (at_last_end f) f k
run text_end f k = assert (null f.rest) f k
run boundary f k = assert (at_boundary f) f k

abbrev pub place : Option ℕ → Text → Found
place before rest = record { before = before; rest = rest; groups = [] }

-- re.match(r, t)
unfoldable pub re_match : Regex → Text → Option Found
unfolding run
re_match r t = run r (place none t) some

unfoldable pub search_from : Regex → Option ℕ → Text → Option Found
unfolding run
search_from r before [] = run r (place before []) some
search_from r before (c ∷ t) = elim (run r (place before (c ∷ t)) some) [
  | some m ↦ some m
  | none ↦ search_from r (some c) t
]

-- re.search(r, t)
unfoldable pub search_re : Regex → Text → Option Found
unfolding search_from
search_re r t = search_from r none t

find_all : ℕ → Regex → Option ℕ → Text → List Found
find_all zero r before t = []
find_all (suc fuel) r before t = elim (search_from r before t) [
  | none ↦ []
  | some m ↦ m ∷ find_all fuel r m.before m.rest
]

-- re.finditer(r, t), for a pattern that matches no empty text
unfoldable pub finditer : Regex → Text → List Found
unfolding find_all search_from
finditer r t = find_all (length t) r none t

sub_from : ℕ → Regex → Text → Option ℕ → Text → Text
sub_from zero r repl before t = t
sub_from (suc fuel) r repl before [] = []
sub_from (suc fuel) r repl before (c ∷ t) = elim (run r (place before (c ∷ t)) some) [
  | none ↦ c ∷ sub_from fuel r repl (some c) t
  | some m ↦ repl ++ sub_from fuel r repl m.before m.rest
]

-- re.sub(r, repl, t), for a pattern that matches no empty text, and a plain replacement
unfoldable pub re_sub : Regex → Text → Text → Text
unfolding sub_from
re_sub r repl t = sub_from (length t) r repl none t

-- m.group(n), for a group that took part in the match
unfoldable pub group_of : ℕ → Found → Text
unfolding lookup
group_of n m = elim (lookup n m.groups) [ none ↦ [] | some t ↦ t ]

-- Patterns.
infixr 60 ◌⨟◌
abbrev pub ◌⨟◌ : Regex → Regex → Regex
a ⨟ b = seq a b

abbrev pub chars : Text → Regex
chars [] = eps
chars (c ∷ []) = one (λ d. c == d)
chars (c ∷ d ∷ t) = seq (one (λ x. c == x)) (chars (d ∷ t))

-- Characters that are to be read as they are.
abbrev pub lit : String → Regex
lit s = chars (codes s)

-- The characters that IGNORECASE lets an ASCII character stand for: its other case, and the letters
-- beyond ASCII that fold to it.
unfoldable pub folds_to : ℕ → ℕ → Bool
folds_to c d =
    (c == d)
    || ((leb b'a' c && (leb c b'z' && (c - 32 == d)))
        || ((leb b'A' c && (leb c b'Z' && (c + 32 == d)))
            || (((c == b'i') && ((d == 304) || (d == 305)))
                || (((c == b'k') && (d == 8490)) || ((c == b's') && (d == 383))))))

abbrev pub chars_any_case : Text → Regex
chars_any_case [] = eps
chars_any_case (c ∷ t) = seq (one (folds_to c)) (chars_any_case t)

-- The literal in lower case.
abbrev pub lit_any_case : String → Regex
lit_any_case s = chars_any_case (codes s)

unfoldable pub is_digit : ℕ → Bool
is_digit c = elim (digit_value c) [ none ↦ false | some d ↦ true ]

abbrev pub plus : Regex → Regex
plus r = seq r (star r)

abbrev pub optional : Regex → Regex
optional r = alt r eps

-- `\s*`, `\s+`, `\d`, `\d+`, `[\d.]+`
abbrev pub spaces : Regex
spaces = star (one is_space)

abbrev pub spaces1 : Regex
spaces1 = plus (one is_space)

abbrev pub digit : Regex
digit = one is_digit

abbrev pub digits1 : Regex
digits1 = plus digit

abbrev pub digits_or_dots : Regex
digits_or_dots = plus (one (λ c. is_digit c || (c == b'.')))

-- `.` with DOTALL, and without it
abbrev pub any_char : Regex
any_char = one (λ c. true)

abbrev pub any_but_newline : Regex
any_but_newline = one (λ c. not (c == 10))

abbrev pub newline : Regex
newline = one (λ c. c == 10)

-- r repeated k times
abbrev pub times : ℕ → Regex → Regex
times zero r = eps
times (suc k) r = seq r (times k r)
