-- ===== src/Trace/Runs.antt =====
-- Concrete runs of the trace reader and writer, and their theorems at concrete inputs.
use sst_sat.Base.{
  ℕ, ◌+◌, ◌-◌, ◌%◌, ◌^◌, ◌≡◌, ◌≢◌, refl, true, false, List, [], ◌∷◌, ◌++◌, some, none, arith,
}
use sst_sat.Base.Int.{pos, negsuc, ◌+ℤ◌}
use sst_sat.Base.Dict.{lookup, insert}
use sst_sat.Base.Result.{ok}
use sst_sat.Python.Text.{Text, codes, partition, Text_eq}
use sst_sat.Python.Utf8.{decode}
use sst_sat.Trace.Event.{View, Event, view_of, phase_name, ds_name}
use sst_sat.Trace.Varint.{read_byte, uvarint, svarint, unzigzag}
use sst_sat.Trace.Varint.RoundTrip.{uvarint-write, svarint-write}
use sst_sat.Trace.Writer.Varint.{write_uvarint, write_svarint, zigzag}
use sst_sat.Trace.Writer.{
  Call, mem, phase, level, tick, decision, enqueue, fresh, emitted, emit_mem, records, stream,
  checksum,
}
use sst_sat.Trace.Writer.Promise.{promised}
use sst_sat.Trace.Reader.{
  init, done, stuck, turn, on_phase, on_mem, move_addr, read_size, shows_mem, events_loop,
  body_events,
}
use sst_sat.Trace.Reader.Views.{visible}
use sst_sat.Trace.Reader.Progress.{body_events-ne-stuck}
use sst_sat.Trace.RoundTrip.{body_events-stream}
use sst_sat.Trace.RoundTrip.SecondWriter.{at_cycle, second_writer_tick}
use sst_sat.Trace.Header.{Header, parse_header, open_body, body_of, iter_events, text, offset}
use sst_sat.Trace.Header.Views.{iter_events-view}
use sst_sat.Trace.Summary.{Tally, summarize, count_of, kind}
use sst_sat.Trace.Summary.Counts.{
  how_many, has_kind, touches, enters, mem_bytes, summarize_counts, summarize-ne-none,
}

-- The worked examples of TRACE_FORMAT.md.
uvarint_300 : uvarint (0xac ∷ 0x02 ∷ []) ≡ ok (300, [])
unfolding uvarint
uvarint_300 = refl

uvarint-write_example : uvarint (write_uvarint 300 ++ (9 ∷ [])) ≡ ok (300, 9 ∷ [])
uvarint-write_example = uvarint-write 300 (9 ∷ [])

svarint-write_example : svarint (write_svarint (negsuc 1) ++ (9 ∷ [])) ≡ ok (negsuc 1, 9 ∷ [])
svarint-write_example = svarint-write (negsuc 1) (9 ∷ []) (omega arith)

abbrev ds_map : ℕ → ℕ
ds_map nibble = 3

watch_read :
    emitted (mem false 0x30000040 64) (fresh ds_map 0)
    ≡ 0x10 ∷ 0x63 ∷ 0x80 ∷ 0x81 ∷ 0x80 ∷ 0x80 ∷ 0x06 ∷ []
unfolding emitted emit_mem fresh write_svarint write_uvarint zigzag
watch_read = refl

abbrev calls : List Call
calls =
    tick 5
    ∷ phase 3
    ∷ mem false 0x30000040 64
    ∷ level (pos 2)
    ∷ mem true 0x30000080 12
    ∷ enqueue (pos 7) true (negsuc 0)
    ∷ tick 9
    ∷ decision (pos 4) false (pos 3)
    ∷ []

body_events-stream_example : body_events View.all (stream 9 calls (fresh ds_map 0)) ≡ record {
  events =
      promised ds_map calls (record { cycle = 0; phase = 0; level = 0 })
      ++ (Event.finish
            (9 % 2 ^ 64)
            (8 % 2 ^ 64)
            (checksum (records calls (fresh ds_map 0)) % 2 ^ 32)
          ∷ []);
  ending = done;
}
body_events-stream_example = body_events-stream ds_map 9 calls (λ nibble. omega arith) (omega arith)

second_writer_tick_example :
    (events_loop 4 1 View.all (emitted (tick 5) (fresh ds_map 100) ++ []) init
      ≡ events_loop 4 0 View.all [] (at_cycle ((5 + 2 ^ 64 - 100) % 2 ^ 64)))
    × ((5 + 2 ^ 64 - 100) % 2 ^ 64 ≢ 5)
second_writer_tick_example =
    second_writer_tick 4 0 100 5 ds_map [] (omega arith) (omega arith) (omega arith)

-- Twelve bytes of header, then two records.
abbrev file : List ℕ
file = codes "SSTSAT" ++ (0 ∷ 0 ∷ (codes "---" ++ (10 ∷ 0x01 ∷ 3 ∷ 0x10 ∷ 0x63 ∷ 2 ∷ [])))

iter_events-view_example :
    ((iter_events file (codes "memory")).events
      ≡ visible View.memory (iter_events file (codes "all")).events)
    × ((iter_events file (codes "memory")).ending ≡ (iter_events file (codes "all")).ending)
unfolding view_of
iter_events-view_example = iter_events-view file (codes "memory") View.memory refl

body_events-ne-stuck_example : (body_events View.clause (0x30 ∷ 1 ∷ [])).ending ≢ stuck
body_events-ne-stuck_example = body_events-ne-stuck View.clause (0x30 ∷ 1 ∷ [])

abbrev header : Header
header = (codes "magic", text (codes "SSTSAT")) ∷ (codes "body_offset", offset 12) ∷ []

abbrev found : Tally
found = record {
  counts = (codes "phase", 1) ∷ (codes "mem_read", 1) ∷ [];
  ds_counts = (codes "watches", 1) ∷ [];
  phase_counts = (codes "PROPAGATE", 1) ∷ [];
  total_mem_bytes = 64;
}

file_summary : summarize file ≡ some (ok (header, found))
unfolding summarize iter_events parse_header view_of open_body body_of lookup body_events turn
    on_phase read_byte on_mem svarint uvarint unzigzag move_addr read_size shows_mem insert kind
    ds_name phase_name ◌+ℤ◌ decode partition
file_summary = refl

summarize_counts_example :
    ((k : Text)
      → count_of k found.counts ≡ how_many (has_kind k) (iter_events file (codes "all")).events)
    × ((name : Text)
        → count_of name found.ds_counts
          ≡ how_many (touches name) (iter_events file (codes "all")).events)
    × ((name : Text)
        → count_of name found.phase_counts
          ≡ how_many (enters name) (iter_events file (codes "all")).events)
    × (found.total_mem_bytes ≡ mem_bytes (iter_events file (codes "all")).events)
summarize_counts_example = summarize_counts file header found file_summary

summarize-ne-none_example : summarize (codes "SST") ≢ none
summarize-ne-none_example = summarize-ne-none (codes "SST")
