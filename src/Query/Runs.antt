-- ===== src/Query/Runs.antt =====
-- Concrete runs of the queries.
use sst_sat.Base.{ℕ, ◌≡◌, refl, true, List, [], ◌∷◌, ◌++◌}
use sst_sat.Base.Int.{pos, ◌+ℤ◌}
use sst_sat.Base.Dict.{lookup, insert}
use sst_sat.Base.Result.{ok}
use sst_sat.Python.Text.{codes, partition}
use sst_sat.Python.Utf8.{decode}
use sst_sat.Trace.Event.{view_of, phase_name, ds_name}
use sst_sat.Trace.Varint.{read_byte, uvarint, svarint, unzigzag}
use sst_sat.Trace.Reader.{turn, on_phase, on_mem, move_addr, read_size, shows_mem, body_events}
use sst_sat.Trace.Header.{parse_header, open_body, body_of, iter_events}
use sst_sat.Trace.Summary.{Counts, count_of, kind, summarize}
use sst_sat.Query.{Traces, cmd_stream, summarize_all}
use sst_sat.Query.Limits.{shown_of, limit, all_events, cmd_stream-limit}
use sst_sat.Query.Totals.{kind_events, summarize_all_counts}

-- Twelve bytes of header, then two records.
abbrev trace : List ℕ
trace = codes "SSTSAT" ++ (0 ∷ 0 ∷ (codes "---" ++ (10 ∷ 0x01 ∷ 3 ∷ 0x10 ∷ 0x63 ∷ 2 ∷ [])))

abbrev two_traces : Traces
two_traces = (codes "a.trace.bin", trace) ∷ (codes "b.trace.bin", trace) ∷ []

cmd_stream-limit_example :
    shown_of (cmd_stream true (codes "all") (pos 3) 0 two_traces).printed
    ≡ limit (pos 3) (all_events (codes "all") two_traces)
cmd_stream-limit_example = cmd_stream-limit true (codes "all") (pos 3) two_traces

abbrev twice : Counts
twice = (codes "phase", 2) ∷ (codes "mem_read", 2) ∷ []

two_summaries : (summarize_all [] two_traces).1 ≡ ok twice
unfolding summarize_all summarize iter_events parse_header view_of open_body body_of lookup
    body_events turn on_phase read_byte on_mem svarint uvarint unzigzag move_addr read_size
    shows_mem insert kind ds_name phase_name ◌+ℤ◌ decode partition
two_summaries = refl

summarize_all_counts_example :
    count_of (codes "phase") twice ≡ kind_events (codes "phase") two_traces
summarize_all_counts_example = summarize_all_counts (codes "phase") two_traces twice two_summaries
