-- ===== src/Query/Totals.antt =====
-- What the totals of `cmd_summary` of tools/query_trace.py count.
use sst_sat.Base.{ℕ, ◌+◌, ◌≡◌, Option-cases, inl, inr, List, [], ◌∷◌, arith, if◌then◌else◌}
use sst_sat.Base.Result.{ok, raise}
use sst_sat.Base.Dict.{lookup, insert, lookup-insert}
use sst_sat.Python.Text.{Text, Text_eq, codes, eq_text, eq_text_iff}
use sst_sat.Trace.Event.{Event, mem, phase}
use sst_sat.Trace.Header.{iter_events}
use sst_sat.Trace.Summary.{
  Counts, count_of, count_one, kind, Tally, no_tally, tally_event, tally, summarize,
}
use sst_sat.Trace.Summary.Counts.{how_many, has_kind, summarize-tally}
use sst_sat.Query.{Traces, add_counts, summarize_all}

-- The sum of the entries with a key.
sum_at : Text → Counts → ℕ
sum_at k [] = 0
sum_at k ((j, v) ∷ d) = (if eq_text j k then v else 0) + sum_at k d

sum_at-insert :
    (k j : Text) (n : ℕ) (d : Counts)
    → sum_at k (insert j (count_of j d + n) d) ≡ (if eq_text j k then n else 0) + sum_at k d
unfolding sum_at lookup insert
sum_at-insert k j n [] = ground arith
sum_at-insert k j n ((i, v) ∷ d) =
    ground (arith, sum_at-insert k j n d, eq_text_iff i j, eq_text_iff j k, eq_text_iff i k)

sum_at-tally_event :
    (k : Text) (e : Event) (t : Tally)
    → sum_at k (tally_event t e).counts ≡ (if eq_text (kind e) k then 1 else 0) + sum_at k t.counts
unfolding tally_event count_one
sum_at-tally_event k (mem is_write c p ds ds_name addr size) t =
    sum_at-insert k (kind (mem is_write c p ds ds_name addr size)) 1 t.counts
sum_at-tally_event k (phase c name) t = sum_at-insert k (kind (phase c name)) 1 t.counts
sum_at-tally_event k e t = sum_at-insert k (kind e) 1 t.counts

sum_at-tally :
    (k : Text) (es : List Event) (t : Tally)
    → sum_at k (tally t es).counts ≡ how_many (has_kind k) es + sum_at k t.counts
unfolding tally how_many
sum_at-tally k [] t = omega arith
sum_at-tally k (e ∷ es) t =
    omega (arith, sum_at-tally k es (tally_event t e), sum_at-tally_event k e t)

count_of-add_counts :
    (k : Text) (counts total : Counts)
    → count_of k (add_counts total counts) ≡ count_of k total + sum_at k counts
unfolding add_counts sum_at
count_of-add_counts k [] total = omega arith
count_of-add_counts k ((j, v) ∷ counts) total = ground (
  arith,
  count_of-add_counts k counts (insert j (count_of j total + v) total),
  lookup-insert j k (count_of j total + v) total,
  eq_text_iff j k,
)

-- How many events of a kind the traces have.
unfoldable pub kind_events : Text → Traces → ℕ
unfolding how_many
kind_events k [] = 0
kind_events k ((trace, bytes) ∷ traces) =
    how_many (has_kind k) (iter_events bytes (codes "all")).events + kind_events k traces

summarize_all-adds :
    (k : Text) (traces : Traces) (total result : Counts)
    → (summarize_all total traces).1 ≡ ok result
    → count_of k result ≡ count_of k total + kind_events k traces
unfolding summarize_all kind_events
summarize_all-adds k [] total result h = ground arith
summarize_all-adds k ((trace, bytes) ∷ traces) total result h =
    elim (Option-cases (summarize bytes)) [
      | inl e ↦ ground (arith, e)
      | inr (raise x, e) ↦ ground (arith, e)
      | inr (ok (hdr, t), e) ↦
          let n = how_many (has_kind k) (iter_events bytes (codes "all")).events in
          let here : sum_at k t.counts ≡ n = rw (summarize-tally bytes hdr t e) (
            unfold sum_at in
            omega (arith, sum_at-tally k (iter_events bytes (codes "all")).events no_tally)) in
          let more =
            summarize_all-adds k traces (add_counts total t.counts) result (ground (arith, e)) in
          omega (arith, here, more, count_of-add_counts k t.counts total)
    ]

-- The aggregate of the summaries of several traces: the count of a kind is the number of the events of
-- that kind in all the traces.
pub summarize_all_counts :
    (k : Text) (traces : Traces) (result : Counts)
    → (summarize_all [] traces).1 ≡ ok result
    → count_of k result ≡ kind_events k traces
unfolding lookup
summarize_all_counts k traces result h = omega (arith, summarize_all-adds k traces [] result h)
