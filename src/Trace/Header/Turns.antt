-- ===== src/Trace/Header/Turns.antt =====
-- The loop over the lines of the header ends.
use mathlib.Core.Option
use sst_sat.Base.{
  ℕ, zero, suc, ◌+◌, ◌<◌, ◌≡◌, ◌≢◌, refl, arith, Bool-cases, inl, inr, Bool, true, false, Option,
  none, some, List, [], ◌∷◌, length, drop, length-drop, if◌then◌else◌,
}
use sst_sat.Base.Result.{Result, ok, raise}
use sst_sat.Python.Text.{Text, null}
use sst_sat.Trace.Error.{Error}
use sst_sat.Trace.Event.{View}
use sst_sat.Trace.Reader.{stuck}
use sst_sat.Trace.Reader.Progress.{body_events-ne-stuck}
use sst_sat.Trace.Header.{
  read_line, decode_line, with_line, header_lines, parse_header, open_body, stream_of,
}

-- A line takes its bytes.
length-read_line :
    (bytes : List ℕ) → length (read_line bytes).0 + length (read_line bytes).1 ≡ length bytes
unfolding read_line
length-read_line [] = refl
length-read_line (b ∷ bytes) = ground (arith, length-read_line bytes)

length-null : (bytes : List ℕ) → null bytes ≡ false → 0 < length bytes
length-null [] h = ground arith
length-null (b ∷ bytes) h = omega arith

with_line-ne-none :
    (t : Result Error Text) (more : Option (Result Error (List Text × List ℕ)))
    → more ≢ none
    → with_line t more ≢ none
with_line-ne-none (raise e) more h = λ p. cc
with_line-ne-none (ok t) none h = λ p. h refl
with_line-ne-none (ok t) (some (raise e)) h = λ p. cc
with_line-ne-none (ok t) (some (ok (ts, rest))) h = λ p. cc

header_lines-ne-none :
    (fuel : ℕ) (bytes : List ℕ) → length bytes < fuel → header_lines fuel bytes ≢ none
unfolding header_lines
header_lines-ne-none zero bytes h = omega (arith, h)
header_lines-ne-none (suc fuel) bytes h = elim (Bool-cases (null (read_line bytes).0)) [
  | inl e ↦ ground (arith, e)
  | inr e ↦
      let shorter : length (read_line bytes).1 < fuel =
        omega (arith, h, length-read_line bytes, length-null (read_line bytes).0 e) in
      let more = header_lines-ne-none fuel (read_line bytes).1 shorter in
      ground (
        arith,
        e,
        with_line-ne-none (decode_line (read_line bytes).0) (header_lines fuel (read_line bytes).1)
            more,
      )
]

map-ne-none : {A B : Type 0} (f : A → B) (o : Option A) → o ≢ none → Option.map f o ≢ none
map-ne-none f none h = λ p. h refl
map-ne-none f (some a) h = λ p. cc

either-ne-none :
    {A : Type 0} (b : Bool) (o p : Option A) → o ≢ none → p ≢ none → (if b then o else p) ≢ none
either-ne-none true o p h k = h
either-ne-none false o p h k = k

some-ne-none : {A : Type 0} (a : A) → some a ≢ none
some-ne-none a = λ p. cc

-- The loop over the lines of the header never runs out of fuel.
pub parse_header-ne-none : (file : List ℕ) → parse_header file ≢ none
unfolding parse_header
parse_header-ne-none file =
    let lines =
      header_lines-ne-none (suc (length file)) (drop 8 file) (omega (arith, length-drop 8 file)) in
    either-ne-none _ _ _ (map-ne-none _ _ lines) (some-ne-none _)

stream_of-ne-stuck :
    (v : View) (r : Option (Result Error (List ℕ))) → r ≢ none → (stream_of v r).ending ≢ stuck
stream_of-ne-stuck v none h = λ p. h refl
stream_of-ne-stuck v (some (raise e)) h = λ p. cc
stream_of-ne-stuck v (some (ok body)) h = body_events-ne-stuck v body

-- Neither the header of a file nor its body runs out of fuel.
pub opened-ne-stuck : (v : View) (file : List ℕ) → (stream_of v (open_body file)).ending ≢ stuck
unfolding open_body
opened-ne-stuck v file =
    stream_of-ne-stuck v (open_body file) (map-ne-none _ _ (parse_header-ne-none file))
