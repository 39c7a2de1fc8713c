-- ===== src/Trace/Summary/Counts.antt =====
-- What the numbers of a summary count.
use sst_sat.Base.{
  ℕ, ◌+◌, ◌≡◌, ◌≢◌, refl, Bool, false, List, [], ◌∷◌, none, some, if◌then◌else◌, arith,
}
use sst_sat.Base.Result.{ok}
use sst_sat.Base.Dict.{lookup, lookup-insert}
use sst_sat.Python.Text.{Text, codes, eq_text, eq_text_iff, Text_eq}
use sst_sat.Trace.Event.{View, Event, phase, mem}
use sst_sat.Trace.Reader.{Stream, stuck}
use sst_sat.Trace.Header.Views.{iter_events-named}
use sst_sat.Trace.Event.{view_of}
use sst_sat.Trace.Header.{Header, iter_events}
use sst_sat.Trace.Header.Turns.{parse_header-ne-none, opened-ne-stuck}
use sst_sat.Trace.Summary.{
  Counts, count_of, count_one, kind, Tally, no_tally, tally_event, tally, summary_of, summarize,
}

-- How many events pass a test.
unfoldable pub how_many : (Event → Bool) → List Event → ℕ
how_many test [] = 0
how_many test (e ∷ es) = (if test e then 1 else 0) + how_many test es

abbrev pub has_kind : Text → Event → Bool
has_kind k e = eq_text (kind e) k

abbrev pub touches : Text → Event → Bool
touches name (mem _ _ _ _ ds_name _ _) = eq_text ds_name name
touches name _ = false

abbrev pub enters : Text → Event → Bool
enters name (phase _ phase_name) = eq_text phase_name name
enters name _ = false

abbrev bytes_of : Event → ℕ
bytes_of (mem _ _ _ _ _ _ size) = size
bytes_of _ = 0

unfoldable pub mem_bytes : List Event → ℕ
mem_bytes [] = 0
mem_bytes (e ∷ es) = bytes_of e + mem_bytes es

count_of-count_one :
    (k j : Text) (d : Counts)
    → count_of j (count_one k d) ≡ (if eq_text k j then 1 else 0) + count_of j d
unfolding count_one
count_of-count_one k j d = ground (arith, lookup-insert k j (count_of k d + 1) d, eq_text_iff k j)

-- What a tally says, with what a list of events adds to it.
abbrev IsSumOf : Tally → List Event → Tally → Type 0
IsSumOf t es u =
    ((k : Text) → count_of k u.counts ≡ count_of k t.counts + how_many (has_kind k) es)
    × ((name : Text)
        → count_of name u.ds_counts ≡ count_of name t.ds_counts + how_many (touches name) es)
    × ((name : Text)
        → count_of name u.phase_counts ≡ count_of name t.phase_counts + how_many (enters name) es)
    × (u.total_mem_bytes ≡ t.total_mem_bytes + mem_bytes es)

tally_event-IsSumOf : (t : Tally) (e : Event) → IsSumOf t (e ∷ []) (tally_event t e)
unfolding tally_event how_many mem_bytes
tally_event-IsSumOf t (mem is_write c p ds ds_name addr size) = (
  λ k. omega (arith, count_of-count_one (kind (mem is_write c p ds ds_name addr size)) k t.counts),
  λ k. omega (arith, count_of-count_one ds_name k t.ds_counts),
  λ k. omega arith,
  ground arith,
)
tally_event-IsSumOf t (phase c name) = (
  λ k. omega (arith, count_of-count_one (kind (phase c name)) k t.counts),
  λ k. omega arith,
  λ k. omega (arith, count_of-count_one name k t.phase_counts),
  omega arith,
)
tally_event-IsSumOf t e = (
  λ k. omega (arith, count_of-count_one (kind e) k t.counts),
  λ k. omega arith,
  λ k. omega arith,
  omega arith,
)

tally-IsSumOf : (es : List Event) (t : Tally) → IsSumOf t es (tally t es)
unfolding tally how_many mem_bytes
tally-IsSumOf [] t = (λ k. omega arith, λ k. omega arith, λ k. omega arith, omega arith)
tally-IsSumOf (e ∷ es) t =
    let one = tally_event-IsSumOf t e in
    let more = tally-IsSumOf es (tally_event t e) in
    (
      λ k. omega (arith, one.0 k, more.0 k),
      λ k. omega (arith, one.1 k, more.1 k),
      λ k. omega (arith, one.2 k, more.2 k),
      omega (arith, one.3, more.3),
    )

summary_of-tally :
    (hdr hdr' : Header) (t : Tally) (s : Stream)
    → summary_of hdr s ≡ some (ok (hdr', t))
    → t ≡ tally no_tally s.events
summary_of-tally hdr hdr' t s h = ground arith

pub summarize-tally :
    (file : List ℕ) (hdr : Header) (t : Tally)
    → summarize file ≡ some (ok (hdr, t))
    → t ≡ tally no_tally (iter_events file (codes "all")).events
unfolding summarize
summarize-tally file hdr t h =
    ground (arith, λ (g : Header). summary_of-tally g hdr t (iter_events file (codes "all")))

-- The summary of a file counts its events: for each kind its events, for each data structure the memory
-- events on it, for each phase the changes to it, and the total is the sum of the memory events' sizes.
pub summarize_counts :
    (file : List ℕ) (hdr : Header) (t : Tally)
    → summarize file ≡ some (ok (hdr, t))
    → ((k : Text)
        → count_of k t.counts ≡ how_many (has_kind k) (iter_events file (codes "all")).events)
      × ((name : Text)
          → count_of name t.ds_counts
            ≡ how_many (touches name) (iter_events file (codes "all")).events)
      × ((name : Text)
          → count_of name t.phase_counts
            ≡ how_many (enters name) (iter_events file (codes "all")).events)
      × (t.total_mem_bytes ≡ mem_bytes (iter_events file (codes "all")).events)
unfolding lookup
summarize_counts file hdr t h =
    let found = tally-IsSumOf (iter_events file (codes "all")).events no_tally in
    rw (summarize-tally file hdr t h) (
      λ k. omega (arith, found.0 k),
      λ name. omega (arith, found.1 name),
      λ name. omega (arith, found.2 name),
      omega (arith, found.3),
    )

iter_events-ne-stuck : (file : List ℕ) → (iter_events file (codes "all")).ending ≢ stuck
iter_events-ne-stuck file =
    rw (iter_events-named file (codes "all") View.all (unfold view_of in refl))
      (opened-ne-stuck View.all file)

-- On any bytes `summarize` returns a summary or raises a Python error: neither the loop over the lines
-- of the header nor the one over the records runs out of fuel.
pub summarize-ne-none : (file : List ℕ) → summarize file ≢ none
unfolding summarize
summarize-ne-none file = ground (arith, parse_header-ne-none file, iter_events-ne-stuck file)
