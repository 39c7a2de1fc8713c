-- ===== src/Query/Limits.antt =====
-- What `cmd_stream` of tools/query_trace.py shows: the limit of `--head` counts over all the traces.
use sst_sat.Base.{
  ℕ, zero, suc, ◌+◌, ◌≡◌, refl, ap, ◌∙◌, Bool, true, false, List, [], ◌∷◌, ◌++◌, map, length, take,
  arith,
}
use sst_sat.Base.Int.{ℤ, pos, negsuc}
use native.Mathlib.Nat.{add-zero}
use sst_sat.Python.Text.{Text}
use sst_sat.Trace.Event.{Event}
use sst_sat.Trace.Reader.{Ending, done, raised, stuck}
use sst_sat.Trace.Header.{iter_events}
use sst_sat.Query.{Line, shown, Traces, Printed, show_events, banner_of, go_on, cmd_stream}

-- The events among what is printed.
abbrev pub shown_of : List Line → List Event
shown_of [] = []
shown_of (shown e ∷ lines) = e ∷ shown_of lines
shown_of (l ∷ lines) = shown_of lines

-- The events of the traces, up to the first trace that ends in an error.
abbrev pub all_events : Text → Traces → List Event
all_events view [] = []
all_events view ((trace, bytes) ∷ traces) =
    let s = iter_events bytes view in
    s.events ++ elim s.ending [ done ↦ all_events view traces | raised e ↦ [] | stuck ↦ [] ]

-- The first `head` events, all of them if it is 0, and one if it is negative.
abbrev pub limit : ℤ → List Event → List Event
limit (pos zero) evs = evs
limit (pos (suc h)) evs = take (suc h) evs
limit (negsuc h) evs = take 1 evs

show_events-append :
    (head : ℤ) (n : ℕ) (es fs : List Event)
    → (show_events head n (es ++ fs)).0
      ≡ (show_events head n es).0 ++ elim (show_events head n es).1 [
        | true ↦ []
        | false ↦ (show_events head (n + length (show_events head n es).0) fs).0
      ]
unfolding show_events
show_events-append head n [] fs = rw add-zero refl
show_events-append head n (e ∷ es) fs = ground (arith, show_events-append head (suc n) es fs)

shown_of-append : (ls ms : List Line) → shown_of (ls ++ ms) ≡ shown_of ls ++ shown_of ms
shown_of-append [] ms = refl
shown_of-append (shown e ∷ ls) ms = ap (◌∷◌ e) (shown_of-append ls ms)
shown_of-append (l ∷ ls) ms = shown_of-append ls ms

shown_of-shown : (es : List Event) → shown_of (map shown es) ≡ es
shown_of-shown [] = refl
shown_of-shown (e ∷ es) = ap (◌∷◌ e) (shown_of-shown es)

shown_of-banner : (d : Bool) (trace : Text) → shown_of (banner_of d trace) ≡ []
shown_of-banner true trace = refl
shown_of-banner false trace = refl

rest_shown :
    (returns : Bool) (e : Ending) (rest : Printed) (head : ℤ) (m : ℕ) (fs : List Event)
    → shown_of rest.printed ≡ (show_events head m fs).0
    → shown_of (go_on returns e rest).printed ≡ elim returns [
      | true ↦ []
      | false ↦ (show_events head m (elim e [ done ↦ fs | raised x ↦ [] | stuck ↦ [] ])).0
    ]
unfolding show_events
rest_shown true e rest head m fs h = refl
rest_shown false done rest head m fs h = h
rest_shown false (raised x) rest head m fs h = refl
rest_shown false stuck rest head m fs h = refl

cmd_stream-show_events :
    (d : Bool) (view : Text) (head : ℤ) (n : ℕ) (traces : Traces)
    → shown_of (cmd_stream d view head n traces).printed
      ≡ (show_events head n (all_events view traces)).0
unfolding cmd_stream
cmd_stream-show_events d view head n [] = unfold show_events in refl
cmd_stream-show_events d view head n ((trace, bytes) ∷ traces) =
    let s = iter_events bytes view in
    let r = show_events head n s.events in
    simp (shown_of-append, shown_of-banner d trace, shown_of-shown, show_events-append)
      (ap (◌++◌ r.0) (
        rest_shown r.1 s.ending _ head (n + length r.0) _
          (cmd_stream-show_events d view head (n + length r.0) traces)))

take-show_events :
    (h n room : ℕ) (es : List Event)
    → n + suc room ≡ suc h
    → (show_events (pos (suc h)) n es).0 ≡ take (suc room) es
unfolding show_events
take-show_events h n room [] e = refl
take-show_events h n zero (x ∷ es) e = ground arith
take-show_events h n (suc room) (x ∷ es) e = ground (arith, take-show_events h (suc n) room es)

all-show_events : (n : ℕ) (es : List Event) → (show_events (pos 0) n es).0 ≡ es
unfolding show_events
all-show_events n [] = refl
all-show_events n (x ∷ es) = ap (◌∷◌ x) (all-show_events (suc n) es)

limit-show_events : (head : ℤ) (es : List Event) → (show_events head 0 es).0 ≡ limit head es
unfolding show_events
limit-show_events (pos zero) es = all-show_events 0 es
limit-show_events (pos (suc h)) es = take-show_events h 0 h es (omega arith)
limit-show_events (negsuc h) [] = refl
limit-show_events (negsuc h) (e ∷ es) = refl

-- Over several traces `--head n` shows the first n of their events, all of them if n is 0, up to the
-- first trace that ends in an error.
pub cmd_stream-limit :
    (d : Bool) (view : Text) (head : ℤ) (traces : Traces)
    → shown_of (cmd_stream d view head 0 traces).printed ≡ limit head (all_events view traces)
cmd_stream-limit d view head traces =
    cmd_stream-show_events d view head 0 traces ∙ limit-show_events head (all_events view traces)
