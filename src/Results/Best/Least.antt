-- ===== src/Results/Best/Least.antt =====
-- The best contribution of a test is the least that one of its seeds has.
use sst_sat.Base.{
  ◌≡◌, sym, ap, ◌∙◌, arith, true, false, Bool-cases, inl, inr, ◌⊎◌, some, Option-cases, List, [],
  ◌∷◌,
}
use mathlib.Core.Option.{some-injective}
use sst_sat.Base.Lists.{All}
use sst_sat.Base.Dict.{lookup}
use sst_sat.Python.Text.{Text, Text_eq}
use sst_sat.Log.Value.{Floats, Stats, >>=-some}
use sst_sat.Log.Number.{Arithmetic}
use sst_sat.Results.Score.{label_of, excluded_label, penalty}
use sst_sat.Results.Best.{SeedMap, seed_contribution, better, best_contribution}

-- A seed that has the test, is not excluded, and adds `b`.
pub data Attained (fl : Floats) (ar : Arithmetic fl.Float) (timeout_seconds : fl.Float)
    (test : Text) (b : fl.Float) : List (SeedMap fl ar timeout_seconds) → Type 0 where
  here :
      {m : SeedMap fl ar timeout_seconds} {ms : List (SeedMap fl ar timeout_seconds)}
      {entry : Stats fl.Float}
      → lookup test m ≡ some entry
      → seed_contribution fl ar timeout_seconds entry ≡ some b
      → Attained fl ar timeout_seconds test b (m ∷ ms)
  there :
      {m : SeedMap fl ar timeout_seconds} {ms : List (SeedMap fl ar timeout_seconds)}
      → Attained fl ar timeout_seconds test b ms
      → Attained fl ar timeout_seconds test b (m ∷ ms)

-- `<` is a strict order.
module _ (fl : Floats) (ar : Arithmetic fl.Float) (timeout_seconds : fl.Float)
    (irreflexive : (x : fl.Float) → ar.less x x ≡ false)
    (transitive : (x y z : fl.Float)
      → ar.less x y ≡ true
      → ar.less y z ≡ true
      → ar.less x z ≡ true) where
  better-bound :
      (c a b : fl.Float)
      → (b ≡ better fl ar timeout_seconds c a)
        ⊎ (ar.less b (better fl ar timeout_seconds c a) ≡ true)
      → (ar.less c b ≡ false) × ((b ≡ a) ⊎ (ar.less b a ≡ true))
  better-bound c a b h =
      ground
        (arith, irreflexive c, irreflexive b, transitive b c b, transitive b c a, transitive c b a)

  -- What a seed has is not below `b`.
  abbrev pub NotBelow : Text → fl.Float → SeedMap fl ar timeout_seconds → Type 0
  NotBelow test b m =
      (entry : Stats fl.Float)
      → lookup test m ≡ some entry
      → excluded_label (label_of entry) ≡ false
      → (c : fl.Float) × (seed_contribution fl ar timeout_seconds entry ≡ some c)
        × (ar.less c b ≡ false)

  Attained-there :
      {test : Text} {a b : fl.Float} {m : SeedMap fl ar timeout_seconds}
      {ms : List (SeedMap fl ar timeout_seconds)}
      → (b ≡ a) ⊎ Attained fl ar timeout_seconds test b ms
      → (b ≡ a) ⊎ Attained fl ar timeout_seconds test b (m ∷ ms)
  Attained-there (inl e) = inl e
  Attained-there (inr x) = inr (there x)

  Attained-here :
      {test : Text} {a b c : fl.Float} {m : SeedMap fl ar timeout_seconds}
      {ms : List (SeedMap fl ar timeout_seconds)} {entry : Stats fl.Float}
      → lookup test m ≡ some entry
      → seed_contribution fl ar timeout_seconds entry ≡ some c
      → (b ≡ better fl ar timeout_seconds c a) ⊎ Attained fl ar timeout_seconds test b ms
      → (b ≡ a) ⊎ Attained fl ar timeout_seconds test b (m ∷ ms)
  Attained-here e e2 (inr x) = inr (there x)
  Attained-here {a = a} {b = b} {c = c} e e2 (inl same) = elim (Bool-cases (ar.less c a)) [
    | inl l ↦ let found : c ≡ b = ground (arith, l, same) in inr (here e (e2 ∙ ap some found))
    | inr l ↦ inl (ground (arith, l, same))
  ]

  not_counted :
      (test : Text) (b : fl.Float) (m : SeedMap fl ar timeout_seconds) (entry : Stats fl.Float)
      → lookup test m ≡ some entry
      → excluded_label (label_of entry) ≡ true
      → NotBelow test b m
  not_counted test b m entry e x other found y =
      let same = some-injective entry other (sym e ∙ found) in
      ground (arith, ap (λ r. excluded_label (label_of r)) same, x, y)

  counted_seed :
      (test : Text) (b : fl.Float) (m : SeedMap fl ar timeout_seconds) (entry : Stats fl.Float)
      (c : fl.Float)
      → lookup test m ≡ some entry
      → seed_contribution fl ar timeout_seconds entry ≡ some c
      → ar.less c b ≡ false
      → NotBelow test b m
  counted_seed test b m entry c e e2 l other found y =
      let same = some-injective entry other (sym e ∙ found) in
      (c, ap (seed_contribution fl ar timeout_seconds) (sym same) ∙ e2, l)

  best_contribution-bound :
      (test : Text) (ms : List (SeedMap fl ar timeout_seconds)) (a b : fl.Float)
      → best_contribution fl ar timeout_seconds test ms a ≡ some b
      → ((b ≡ a) ⊎ (ar.less b a ≡ true))
        × All (NotBelow test b) ms
        × ((b ≡ a) ⊎ Attained fl ar timeout_seconds test b ms)
  unfolding best_contribution
  best_contribution-bound test [] a b h =
      let same = sym (some-injective a b h) in (inl same, tt, inl same)
  best_contribution-bound test (m ∷ ms) a b h = elim (Option-cases (lookup test m)) [
    | inl e ↦
        let (bound, least, attained) = best_contribution-bound test ms a b (ground (arith, e)) in
        (bound, ((λ entry found x. ground (arith, e, found)), least), Attained-there attained)
    | inr (entry, e) ↦ elim (Bool-cases (excluded_label (label_of entry))) [
      | inl x ↦
          let (bound, least, attained) =
            best_contribution-bound test ms a b (ground (arith, e, x)) in
          (bound, (not_counted test b m entry e x, least), Attained-there attained)
      | inr x ↦
          let (c, e2, more) =
            >>=-some (seed_contribution fl ar timeout_seconds entry)
              (λ c.
                best_contribution fl ar timeout_seconds test ms (better fl ar timeout_seconds c a))
              b (ground (arith, e, x)) in
          let (bound, least, attained) =
            best_contribution-bound test ms (better fl ar timeout_seconds c a) b more in
          let (not_less, bound_a) = better-bound c a b bound in
          (
            bound_a,
            (counted_seed test b m entry c e e2 not_less, least),
            Attained-here {a = a} {b = b} {c = c} e e2 attained,
          )
    ]
  ]

  -- The best contribution of a test, if the loop over its seeds gives one, is the penalty or what one
  -- of the seeds adds; and of the seeds that have the test and are not excluded none adds less, for
  -- floats where < is irreflexive and transitive.
  pub best_contribution-least :
      (test : Text) (ms : List (SeedMap fl ar timeout_seconds)) (b : fl.Float)
      → best_contribution fl ar timeout_seconds test ms (penalty fl ar timeout_seconds) ≡ some b
      → All (NotBelow test b) ms
        × ((b ≡ penalty fl ar timeout_seconds) ⊎ Attained fl ar timeout_seconds test b ms)
  best_contribution-least test ms b h =
      let (_, least, attained) =
        best_contribution-bound test ms (penalty fl ar timeout_seconds) b h in
      (least, attained)
