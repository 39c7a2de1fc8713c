-- ===== src/Tools/Histogram/Order.antt =====
-- The order of the columns of tools/parse_histogram.py.
use sst_sat.Base.{
  ◌≡◌, sym, ap, ap₂, ◌∙◌, refl, arith, Bool, true, false, ◌⊎◌, inl, inr, Bool-cases, List, [], ◌∷◌,
  if◌then◌else◌, Option, some, none,
}
use sst_sat.Base.Int.{ℤ, pos, negsuc}
use sst_sat.Python.Text.{Text, codes, eq_text, eq_text_iff, has_char, split_on, is_space}
use sst_sat.Python.Number.{int, digit_value}
use sst_sat.Python.Sorted.Laws.{sorted-perm, sorted-Ascends, Ascends, le_text_total}
use sst_sat.Tools.Histogram.{
  SortKey, single, span, beyond, other, le_ℤ, le_start, sort_key, le_key, le_bin, sort_bin_keys,
}
use mathlib.Core.List.{Perm}
use mathlib.Core.Option.{some-injective}
use sst_sat.Python.Sorted.{sorted}

le_ℤ_total : (m n : ℤ) → (le_ℤ m n ≡ true) ⊎ (le_ℤ n m ≡ true)
le_ℤ_total (pos m) (pos n) = ground arith
le_ℤ_total (pos m) (negsuc n) = inr refl
le_ℤ_total (negsuc m) (pos n) = inl refl
le_ℤ_total (negsuc m) (negsuc n) = ground arith

le_start_total : (s t : Option ℤ) → (le_start s t ≡ true) ⊎ (le_start t s ≡ true)
le_start_total none none = inl refl
le_start_total none (some n) = inr refl
le_start_total (some m) none = inl refl
le_start_total (some m) (some n) = le_ℤ_total m n

le_key_total : (j k : SortKey) → (le_key j k ≡ true) ⊎ (le_key k j ≡ true)
unfolding le_key
le_key_total (single m) (single n) = le_ℤ_total m n
le_key_total (single m) (span y) = inl refl
le_key_total (single m) beyond = inl refl
le_key_total (single m) (other y) = inl refl
le_key_total (span x) (single n) = inr refl
le_key_total (span x) (span y) = le_start_total x y
le_key_total (span x) beyond = inl refl
le_key_total (span x) (other y) = inl refl
le_key_total beyond (single n) = inr refl
le_key_total beyond (span y) = inr refl
le_key_total beyond beyond = inl refl
le_key_total beyond (other y) = inl refl
le_key_total (other x) (single n) = inr refl
le_key_total (other x) (span y) = inr refl
le_key_total (other x) beyond = inr refl
le_key_total (other x) (other y) = le_text_total x y

-- A key that is a number, and the start of a key that is a range.
unfoldable pub number_of : Text → Option ℤ
number_of k = if has_char b'-' k then none else int k

unfoldable pub start_of : Text → Option ℤ
start_of k = if has_char b'-' k then int (split_on b'-' k).0 else none

-- What the documented order says of a key and the next one.
pub InOrder : Text → Text → Type 0
InOrder x y =
    ((n : ℤ) → number_of y ≡ some n → (m : ℤ) × (number_of x ≡ some m) × (le_ℤ m n ≡ true))
    × ((m n : ℤ) → start_of x ≡ some m → start_of y ≡ some n → le_ℤ m n ≡ true)
    × (has_char b'-' y ≡ true → eq_text x (codes "out_of_bounds") ≡ false)

-- sort_key, from what it tests.
key_of : Text → Bool → Bool → Option ℤ → Option ℤ → SortKey
key_of k true dash start n = beyond
key_of k false true start n = span start
key_of k false false start (some n) = single n
key_of k false false start none = other k

key_of_lem :
    (k : Text) (b d : Bool) (s n : Option ℤ)
    → (if b then beyond else if d then span s else elim n [ some m ↦ single m | none ↦ other k ])
      ≡ key_of k b d s n
unfolding key_of
key_of_lem k true d s n = refl
key_of_lem k false true s n = refl
key_of_lem k false false s (some m) = refl
key_of_lem k false false s none = refl

sort_key-key_of :
    (k : Text)
    → sort_key k
      ≡ key_of k
          (eq_text k (codes "out_of_bounds"))
          (has_char b'-' k)
          (int (split_on b'-' k).0)
          (int k)
unfolding sort_key
sort_key-key_of k =
    key_of_lem k (eq_text k (codes "out_of_bounds")) (has_char b'-' k) (int (split_on b'-' k).0)
      (int k)

beyond_number : number_of (codes "out_of_bounds") ≡ none
unfolding number_of int is_space digit_value
beyond_number = refl

no_number : (k : Text) → eq_text k (codes "out_of_bounds") ≡ true → number_of k ≡ none
no_number k e = ap number_of ((eq_text_iff k (codes "out_of_bounds")).0 e) ∙ beyond_number

no_dash : (k : Text) → has_char b'-' k ≡ true → eq_text k (codes "out_of_bounds") ≡ false
no_dash k h = elim (Bool-cases (eq_text k (codes "out_of_bounds"))) [
  | inl e ↦
      let never = sym (ap (has_char b'-') ((eq_text_iff k (codes "out_of_bounds")).0 e)) ∙ h in
      ground (arith, never)
  | inr e ↦ e
]

key_of_number :
    (k : Text) (b d : Bool) (s whole : Option ℤ) (n : ℤ)
    → (b ≡ true → (if d then none else whole) ≡ none)
    → (if d then none else whole) ≡ some n
    → key_of k b d s whole ≡ single n
unfolding key_of
key_of_number k true d s whole n never h = ground (arith, never refl, h)
key_of_number k false true s whole n never h = ground (arith, h)
key_of_number k false false s none n never h = ground (arith, h)
key_of_number k false false s (some m) n never h = ap single (some-injective m n h)

number-key_of :
    (k : Text) (b d : Bool) (s whole : Option ℤ) (n : ℤ)
    → key_of k b d s whole ≡ single n
    → (if d then none else whole) ≡ some n
unfolding key_of
number-key_of k true d s whole n h = ground (arith, h)
number-key_of k false true s whole n h = ground (arith, h)
number-key_of k false false s none n h = ground (arith, h)
number-key_of k false false s (some m) n h = ground (arith, h)

sort_key-number_of : (k : Text) (n : ℤ) → number_of k ≡ some n → sort_key k ≡ single n
unfolding number_of
sort_key-number_of k n h =
    sort_key-key_of k
    ∙ key_of_number k (eq_text k (codes "out_of_bounds")) (has_char b'-' k)
        (int (split_on b'-' k).0) (int k) n (no_number k) h

number_of-sort_key : (k : Text) (n : ℤ) → sort_key k ≡ single n → number_of k ≡ some n
unfolding number_of
number_of-sort_key k n h =
    number-key_of k (eq_text k (codes "out_of_bounds")) (has_char b'-' k) (int (split_on b'-' k).0)
      (int k) n (sym (sort_key-key_of k) ∙ h)

sort_key_dash : (k : Text) → has_char b'-' k ≡ true → sort_key k ≡ span (int (split_on b'-' k).0)
unfolding key_of
sort_key_dash k h =
    sort_key-key_of k
    ∙ ap (λ b. key_of k b (has_char b'-' k) (int (split_on b'-' k).0) (int k)) (no_dash k h)
    ∙ ap (λ d. key_of k false d (int (split_on b'-' k).0) (int k)) h

sort_key-start_of : (k : Text) (n : ℤ) → start_of k ≡ some n → sort_key k ≡ span (some n)
unfolding start_of
sort_key-start_of k n h = elim (Bool-cases (has_char b'-' k)) [
  | inl e ↦
      let start : int (split_on b'-' k).0 ≡ some n =
        sym (ap (λ b. if b then int (split_on b'-' k).0 else none) e) ∙ h in
      sort_key_dash k e ∙ ap span start
  | inr e ↦
      let never : none ≡ some n =
        sym (ap (λ b. if b then int (split_on b'-' k).0 else none) e) ∙ h in
      ground (arith, never)
]

sort_key_beyond : (k : Text) → eq_text k (codes "out_of_bounds") ≡ true → sort_key k ≡ beyond
unfolding key_of
sort_key_beyond k h =
    sort_key-key_of k ∙ ap (λ b. key_of k b (has_char b'-' k) (int (split_on b'-' k).0) (int k)) h

before_number :
    (j : SortKey) (n : ℤ)
    → le_key j (single n) ≡ true
    → (m : ℤ) × (j ≡ single m) × (le_ℤ m n ≡ true)
unfolding le_key
before_number (single m) n h = (m, refl, h)
before_number (span s) n h = ground (arith, h)
before_number beyond n h = ground (arith, h)
before_number (other t) n h = ground (arith, h)

before_range : (s : Option ℤ) → le_key beyond (span s) ≡ false
unfolding le_key
before_range s = refl

le_bin-InOrder : (x y : Text) → le_bin x y ≡ true → InOrder x y
unfolding InOrder le_key
le_bin-InOrder x y h = (
  λ n e.
      let (m, same, le) =
        before_number (sort_key x) n
          (sym (ap (le_key (sort_key x)) (sort_key-number_of y n e)) ∙ h) in
      (m, number_of-sort_key x m same, le),
  λ m n e f. sym (ap₂ le_key (sort_key-start_of x m e) (sort_key-start_of y n f)) ∙ h,
  λ d. elim (Bool-cases (eq_text x (codes "out_of_bounds"))) [
    | inl e ↦
        let never =
          sym (
            ap₂ le_key (sort_key_beyond x e) (sort_key_dash y d)
            ∙ before_range (int (split_on b'-' y).0))
          ∙ h in
        ground (arith, never)
    | inr e ↦ e
  ],
)

-- Neighbours stand in order.
abbrev pub AllInOrder : List Text → Type 0
AllInOrder [] = Unit {0}
AllInOrder (x ∷ []) = Unit {0}
AllInOrder (x ∷ y ∷ ys) = InOrder x y × AllInOrder (y ∷ ys)

Ascends-AllInOrder : (ks : List Text) → Ascends le_bin ks → AllInOrder ks
Ascends-AllInOrder [] h = tt
Ascends-AllInOrder (x ∷ []) h = tt
Ascends-AllInOrder (x ∷ y ∷ ys) h = (le_bin-InOrder x y h.0, Ascends-AllInOrder (y ∷ ys) h.1)

-- The columns are the keys that are given. Of two neighbours, if the second one is a number without a
-- dash, the first one is such a number that is not larger; if both have a dash and a start that can be
-- read, the first start is not larger; and if the second one has a dash, the first is not out_of_bounds.
pub sort_bin_keys-AllInOrder :
    (keys : List Text) → Perm (sort_bin_keys keys) keys × AllInOrder (sort_bin_keys keys)
unfolding sort_bin_keys
sort_bin_keys-AllInOrder keys = (
  sorted-perm le_bin keys,
  Ascends-AllInOrder (sorted le_bin keys)
      (sorted-Ascends le_bin (λ j k. le_key_total (sort_key j) (sort_key k)) keys),
)
