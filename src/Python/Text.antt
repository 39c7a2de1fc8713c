-- ===== src/Python/Text.antt =====
-- What the tools use of Python's `str`: a text is the list of its code points.
use Prim.Native.Char.{code}
use Prim.Native.String.{String}
use sst_sat.Base.Dict.{Eq}
use sst_sat.Base.{
  ℕ, ◌+◌, ◌-◌, leb, Option, none, some, ◌≡◌, ◌↔◌, Bool, true, false, ◌&&◌, ◌||◌, List, [], ◌∷◌,
  ◌++◌, arith, ◌==◌, if◌then◌else◌,
}

abbrev pub Text : Type 0
Text = List ℕ

-- The code points of a literal.
abbrev pub codes : String → Text
codes String.[] = []
codes (String.◌∷◌ c s) = code c ∷ codes s

abbrev pub eq_text : Text → Text → Bool
eq_text [] [] = true
eq_text (c ∷ s) (d ∷ t) = (c == d) && eq_text s t
eq_text s t = false

-- t.startswith(p)
abbrev pub starts_with : Text → Text → Bool
starts_with [] t = true
starts_with (c ∷ p) [] = false
starts_with (c ∷ p) (d ∷ t) = (c == d) && starts_with p t

-- c in t, for a character
abbrev pub has_char : ℕ → Text → Bool
has_char c [] = false
has_char c (d ∷ t) = (c == d) || has_char c t

-- p in t, for a text
abbrev pub has_text : Text → Text → Bool
has_text p [] = starts_with p []
has_text p (d ∷ t) = starts_with p (d ∷ t) || has_text p t

-- t.endswith(p)
abbrev pub ends_with : Text → Text → Bool
ends_with p [] = eq_text p []
ends_with p (d ∷ t) = eq_text p (d ∷ t) || ends_with p t

abbrev pub null {ℓ} : {A : Type ℓ} → List A → Bool
null [] = true
null (x ∷ xs) = false

-- c.isspace()
unfoldable pub is_space : ℕ → Bool
is_space c = has_char c (
    9 ∷ 10 ∷ 11 ∷ 12 ∷ 13 ∷ 28 ∷ 29 ∷ 30 ∷ 31 ∷ 32 ∷ 133 ∷ 160 ∷ 5760 ∷ 8192 ∷ 8193 ∷ 8194 ∷ 8195
    ∷ 8196 ∷ 8197 ∷ 8198 ∷ 8199 ∷ 8200 ∷ 8201 ∷ 8202 ∷ 8232 ∷ 8233 ∷ 8239 ∷ 8287 ∷ 12288 ∷ [])

unfoldable pub lstrip : Text → Text
lstrip [] = []
lstrip (c ∷ t) = let rest = lstrip t in if is_space c then rest else c ∷ t

unfoldable pub rstrip : Text → Text
rstrip [] = []
rstrip (c ∷ t) = let rest = rstrip t in if is_space c && null rest then [] else c ∷ rest

-- t.strip()
unfoldable pub strip : Text → Text
unfolding lstrip rstrip
strip t = lstrip (rstrip t)

abbrev pub push_word : Text → List Text → List Text
push_word [] ws = ws
push_word (c ∷ w) ws = (c ∷ w) ∷ ws

-- The word that goes on at this place, which may be empty, and the words after it.
unfoldable pub split_from : Text → Text × List Text
split_from [] = ([], [])
split_from (c ∷ t) =
    let rest = split_from t in
    if is_space c then ([], push_word rest.0 rest.1) else (c ∷ rest.0, rest.1)

-- t.split()
unfoldable pub split : Text → List Text
unfolding split_from
split t = let rest = split_from t in push_word rest.0 rest.1

-- t.split(sep), for a character
unfoldable pub split_on : ℕ → Text → Text × List Text
split_on sep [] = ([], [])
split_on sep (c ∷ t) =
    let rest = split_on sep t in if c == sep then ([], rest.0 ∷ rest.1) else (c ∷ rest.0, rest.1)

-- sep.join(ts)
unfoldable pub join : Text → List Text → Text
join sep [] = []
join sep (t ∷ []) = t
join sep (t ∷ u ∷ ts) = t ++ (sep ++ join sep (u ∷ ts))

-- The last piece is no line where the text ends in a line end.
abbrev pub drop_last : Text → List Text → List Text
drop_last l [] = if null l then [] else l ∷ []
drop_last l (m ∷ ms) = l ∷ drop_last m ms

-- `for line in f`: the lines of a file, without the line ends.
unfoldable pub lines : Text → List Text
unfolding split_on
lines t = let pieces = split_on 10 t in drop_last pieces.0 pieces.1

-- t.partition(sep), for a character
unfoldable pub partition : ℕ → Text → Text × Text
partition sep [] = ([], [])
partition sep (c ∷ t) =
    let rest = partition sep t in if c == sep then ([], t) else (c ∷ rest.0, rest.1)

-- t.strip(sep), for a character
unfoldable pub lstrip_char : ℕ → Text → Text
lstrip_char sep [] = []
lstrip_char sep (c ∷ t) = let rest = lstrip_char sep t in if c == sep then rest else c ∷ t

unfoldable pub rstrip_char : ℕ → Text → Text
rstrip_char sep [] = []
rstrip_char sep (c ∷ t) =
    let rest = rstrip_char sep t in if (c == sep) && null rest then [] else c ∷ rest

unfoldable pub strip_char : ℕ → Text → Text
unfolding lstrip_char rstrip_char
strip_char sep t = lstrip_char sep (rstrip_char sep t)

-- The ends of lines that `splitlines` knows, after \r\n is one of them.
unfoldable pub is_line_break : ℕ → Bool
is_line_break c = has_char c (10 ∷ 11 ∷ 12 ∷ 13 ∷ 28 ∷ 29 ∷ 30 ∷ 133 ∷ 8232 ∷ 8233 ∷ [])

unfoldable pub join_crlf : Text → Text
join_crlf [] = []
join_crlf (c ∷ t) =
    let rest = join_crlf t in if (c == 13) && starts_with (10 ∷ []) t then rest else c ∷ rest

unfoldable pub split_lines : Text → Text × List Text
unfolding is_line_break
split_lines [] = ([], [])
split_lines (c ∷ t) =
    let rest = split_lines t in
    if is_line_break c then ([], rest.0 ∷ rest.1) else (c ∷ rest.0, rest.1)

-- t.splitlines()
unfoldable pub splitlines : Text → List Text
unfolding split_lines join_crlf
splitlines t = let pieces = split_lines (join_crlf t) in drop_last pieces.0 pieces.1

-- t.lower() and t.upper(), as far as letters of ASCII come of it
unfoldable pub lower_char : ℕ → Text
lower_char c =
    if leb b'A' c && leb c b'Z'
    then (c + 32) ∷ []
    else if c == 8490
    then b'k' ∷ []
    else if c == 304
    then b'i' ∷ 775 ∷ []
    else c ∷ []

unfoldable pub lower : Text → Text
unfolding lower_char
lower [] = []
lower (c ∷ t) = lower_char c ++ lower t

abbrev pub upper_char : ℕ → ℕ
upper_char c =
    if leb b'a' c && leb c b'z'
    then c - 32
    else if c == 305
    then b'I'
    else if c == 383
    then b'S'
    else c

unfoldable pub upper : Text → Text
upper [] = []
upper (c ∷ t) = upper_char c ∷ upper t

-- The text before the last of a character, if there is one, and the text behind it.
unfoldable pub before_last : ℕ → Text → Option Text
before_last sep [] = none
before_last sep (c ∷ t) = elim (before_last sep t) [
  | some r ↦ some (c ∷ r)
  | none ↦ if c == sep then some [] else none
]

unfoldable pub behind_last : ℕ → Text → Text
behind_last sep [] = []
behind_last sep (c ∷ t) =
    let rest = behind_last sep t in
    if has_char sep (c ∷ t) then (if has_char sep t then rest else t) else c ∷ t

-- os.path.basename(p)
unfoldable pub basename : Text → Text
unfolding behind_last
basename p = behind_last b'/' p

-- os.path.splitext(name)[0], for a name without a slash: the dots that begin it are no extension.
unfoldable pub splitext : Text → Text
unfolding before_last lstrip_char
splitext name = elim (before_last b'.' name) [
  | none ↦ name
  | some r ↦ if null (lstrip_char b'.' r) then name else r
]

pub eq_text_iff : (s t : Text) → (eq_text s t ≡ true) ↔ (s ≡ t)
eq_text_iff [] [] = ground arith
eq_text_iff [] (d ∷ t) = ground arith
eq_text_iff (c ∷ s) [] = ground arith
eq_text_iff (c ∷ s) (d ∷ t) = ground (arith, (eq_text_iff s t).0, (eq_text_iff s t).1)

instance abbrev pub Text_eq : Eq Text
Text_eq = record { beq = eq_text; beq_iff = eq_text_iff }
