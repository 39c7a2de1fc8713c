-- ===== src/Log/Keys.antt =====
-- Which keys the sections of a log may have: none of them has the key of the run's result.
pub mod Activities
pub mod Sections
use sst_sat.Base.{
  ℕ, ◌≡◌, refl, sym, ◌∙◌, arith, Bool, true, false, not, ◌&&◌, Option, some, none, Option-cases,
  inl, inr, List, [], ◌∷◌, ◌++◌,
}
use sst_sat.Base.Lists.{All}
use sst_sat.Base.Int.{pos}
use sst_sat.Base.Dict.{lookup, insert, lookup-insert}
use sst_sat.Python.Text.{Text, Text_eq, codes, eq_text, eq_text_iff}
use sst_sat.Python.Number.{int}
use sst_sat.Python.Regex.{Regex, search_re, group_of}
use sst_sat.Log.Value.{Floats, Stats, whole, update, put_int, put_float}
use sst_sat.Log.Sections.{Figures, Put, Table, find_figure, find_figures, find_or_zero}
use sst_sat.Log.Caches.{Column, put_columns, find_columns}
use mathlib.Core.Option

-- A dict without a key.
abbrev pub Lacks : {F : Type 0} → Text → Stats F → Type 0
Lacks k d = lookup k d ≡ none

pub insert-Lacks :
    {F : Type 0} (k j : Text) (v : _) (d : Stats F)
    → eq_text j k ≡ false
    → Lacks k d
    → Lacks k (insert j v d)
insert-Lacks k j v d h l = rw (lookup-insert j k v d, h) l

pub lookup-update :
    {F : Type 0} (k : Text) (d e : Stats F) → Lacks k e → lookup k (update d e) ≡ lookup k d
unfolding update lookup
lookup-update k d [] l = refl
lookup-update k d ((j, v) ∷ e) l =
    lookup-update k (insert j v d) e (grind arith) ∙ rw lookup-insert (ground arith)

-- A statement that puts a figure under another key.
abbrev pub Tidy : (fl : Floats) → Text → Put fl → Type 0
Tidy fl k put =
    (key t : Text) (d d' : Figures fl)
    → eq_text key k ≡ false
    → Lacks k d
    → put key t d ≡ some d'
    → Lacks k d'

pub put_int-Tidy : (fl : Floats) (k : Text) → Tidy fl k put_int
put_int-Tidy fl k key t d d' h l e = grind (arith, insert-Lacks)

pub put_float-Tidy : (fl : Floats) (k : Text) → Tidy fl k (put_float fl)
put_float-Tidy fl k key t d d' h l e = grind (arith, insert-Lacks)

-- No key of a table is `k`.
abbrev pub has_no_key : {A : Type 0} → Text → List (Text × A) → Bool
has_no_key k [] = true
has_no_key k ((j, x) ∷ rows) = not (eq_text j k) && has_no_key k rows

pub find_figure-Lacks :
    (fl : Floats) (k : Text) (put : Put fl)
    → Tidy fl k put
    → (key : Text) (r : Regex) (t : Text) (d d' : Figures fl) → eq_text key k ≡ false
    → Lacks k d
    → find_figure fl put key r t d ≡ some d'
    → Lacks k d'
unfolding find_figure
find_figure-Lacks fl k put tidy key r t d d' h l e = grind (arith, tidy)

pub find_figures-Lacks :
    (fl : Floats) (k : Text) (put : Put fl)
    → Tidy fl k put
    → (table : Table) (t : Text) (d d' : Figures fl) → has_no_key k table ≡ true
    → Lacks k d
    → find_figures fl put table t d ≡ some d'
    → Lacks k d'
unfolding find_figures
find_figures-Lacks fl k put tidy [] t d d' h l e = grind arith
find_figures-Lacks fl k put tidy ((key, r) ∷ table) t d d' h l e =
    elim (Option-cases (find_figure fl put key r t d)) [
      | inl q ↦ ground (arith, q)
      | inr (d1, q) ↦
          find_figures-Lacks fl k put tidy table t d1 d' (ground arith)
            (find_figure-Lacks fl k put tidy key r t d d1 (ground arith) l q) (ground (arith, q))
    ]

pub find_or_zero-Lacks :
    (fl : Floats) (k : Text) (table : Table) (t : Text) (d d' : Figures fl)
    → has_no_key k table ≡ true
    → Lacks k d
    → find_or_zero fl table t d ≡ some d'
    → Lacks k d'
unfolding find_or_zero
find_or_zero-Lacks fl k [] t d d' h l e = grind arith
find_or_zero-Lacks fl k ((key, r) ∷ table) t d d' h l e = elim (Option-cases (search_re r t)) [
  | inl q ↦
      find_or_zero-Lacks fl k table t (insert key (whole (pos 0)) d) d' (ground arith)
        (insert-Lacks k key (whole (pos 0)) d (ground arith) l) (ground (arith, q))
  | inr (m, q) ↦ elim (Option-cases (put_int key (group_of 1 m) d)) [
    | inl p ↦ ground (arith, q, p)
    | inr (d1, p) ↦
        find_or_zero-Lacks fl k table t d1 d' (ground arith)
          (put_int-Tidy fl k key (group_of 1 m) d d1 (ground arith) l p) (ground (arith, q, p))
  ]
]

pub put_columns-Lacks :
    (fl : Floats) (k : Text) (columns : List (Column fl))
    → All (λ c. Tidy fl k c.1.1) columns
    → has_no_key k columns ≡ true
    → (groups : ℕ → Text) (d d' : Figures fl) → Lacks k d
    → put_columns fl columns groups d ≡ some d'
    → Lacks k d'
put_columns-Lacks fl k [] tidy h groups d d' l e = grind arith
put_columns-Lacks fl k ((key, (n, put)) ∷ columns) tidy h groups d d' l e =
    elim (Option-cases (put key (groups n) d)) [
      | inl q ↦ ground (arith, q)
      | inr (d1, q) ↦
          put_columns-Lacks fl k columns tidy.1 (ground arith) groups d1 d'
            (tidy.0 key (groups n) d d1 (ground arith) l q) (ground (arith, q))
    ]

pub find_columns-Lacks :
    (fl : Floats) (k : Text) (r : Regex) (columns : List (Column fl))
    → All (λ c. Tidy fl k c.1.1) columns
    → has_no_key k columns ≡ true
    → (t : Text) (d d' : Figures fl) → Lacks k d
    → find_columns fl r columns t d ≡ some d'
    → Lacks k d'
unfolding find_columns
find_columns-Lacks fl k r columns tidy h t d d' l e =
    grind (arith, put_columns-Lacks fl k columns tidy h)
