-- ===== src/Query.antt =====
-- tools/query_trace.py: which traces it reads, and its three commands.
pub mod Format
pub mod Limits
pub mod Totals
mod Runs
use sst_sat.Base.{
  ℕ, zero, suc, ◌+◌, Bool, true, false, ◌||◌, List, [], ◌∷◌, ◌++◌, map, length, leb, ◌==◌, Option,
  none, some, if◌then◌else◌,
}
use sst_sat.Base.Int.{ℤ, pos, negsuc}
use sst_sat.Base.Result.{Result, ok, raise}
use sst_sat.Base.Dict.{lookup, insert}
use sst_sat.Python.Text.{Text, Text_eq, codes, ends_with, null}
use sst_sat.Python.Path.{join_path}
use sst_sat.Python.Sorted.{sorted, le_text}
use sst_sat.Trace.Error.{Error}
use sst_sat.Trace.Event.{Event}
use sst_sat.Trace.Reader.{Stream, Ending, done, raised, stuck}
use sst_sat.Trace.Header.{Header, Value, parse_header, iter_events}
use sst_sat.Trace.Summary.{Counts, count_of, Tally, summarize}

-- What the path names: a file, or a directory with the folders that `os.walk` visits and the names
-- of the files in each.
pub data Target : Type 0 where
  file : Text → Target
  directory : Text → List (Text × List Text) → Target

abbrev pub is_directory : Target → Bool
is_directory (file path) = false
is_directory (directory path folders) = true

-- `if fn.endswith('.trace.bin')`
abbrev traces_in : Text → List Text → List Text
traces_in root [] = []
traces_in root (name ∷ names) =
    if ends_with (codes ".trace.bin") name
    then join_path root name ∷ traces_in root names
    else traces_in root names

abbrev traces_of : List (Text × List Text) → List Text
traces_of [] = []
traces_of ((root, names) ∷ folders) = traces_in root (sorted le_text names) ++ traces_of folders

unfoldable pub iter_traces : Target → List Text
unfolding sorted le_text join_path
iter_traces (file path) = path ∷ []
iter_traces (directory path folders) = traces_of folders

-- A line that is printed: `=== trace ===`, an event, or other text.
pub data Line : Type 0 where
  banner : Text → Line
  shown : Event → Line
  entry : Text → Header → Line
  summary : Header → Tally → Line
  warning : ℕ → Line
  no_traces : Line
  totals : Counts → Line

-- What a command prints, and how it ends.
pub record Printed : Type 0 where
  pub printed : List Line
  pub end : Ending

abbrev pub prints : List Line → Printed → Printed
prints lines p = record { printed = lines ++ p.printed; end = p.end }

-- `head and shown >= head`
abbrev pub is_full : ℤ → ℕ → Bool
is_full (pos zero) n = false
is_full (pos (suc h)) n = leb (suc h) n
is_full (negsuc h) n = true

-- The loop over the events of a trace, `n` of which have been shown: what it shows, and if it returns.
unfoldable pub show_events : ℤ → ℕ → List Event → List Event × Bool
show_events head n [] = ([], false)
show_events head n (ev ∷ evs) =
    let rest = show_events head (suc n) evs in
    if is_full head (suc n) then (ev ∷ [], true) else (ev ∷ rest.0, rest.1)

-- The traces with their bytes.
abbrev pub Traces : Type 0
Traces = List (Text × List ℕ)

abbrev banner_of : Bool → Text → List Line
banner_of in_directory trace = if in_directory then banner trace ∷ [] else []

-- `return`, or the next trace if the generator ended without an error.
abbrev pub go_on : Bool → Ending → Printed → Printed
go_on true e rest = record { printed = []; end = done }
go_on false done rest = rest
go_on false e rest = record { printed = []; end = e }

unfoldable pub cmd_stream : Bool → Text → ℤ → ℕ → Traces → Printed
unfolding show_events
cmd_stream in_directory view head n [] = record { printed = []; end = done }
cmd_stream in_directory view head n ((trace, bytes) ∷ traces) =
    let s = iter_events bytes view in
    let (evs, returns) = show_events head n s.events in
    let rest = cmd_stream in_directory view head (n + length evs) traces in
    prints (banner_of in_directory trace ++ map shown evs) (go_on returns s.ending rest)

-- `total[k] = total.get(k, 0) + v` for the items of a dict
unfoldable pub add_counts : Counts → Counts → Counts
unfolding lookup insert
add_counts total [] = total
add_counts total ((k, v) ∷ counts) = add_counts (insert k (count_of k total + v) total) counts

abbrev finish_warning : ℕ → List Line
finish_warning n = if n == 1 then [] else warning n ∷ []

abbrev summary_lines : Text → Header → Tally → List Line
summary_lines trace hdr t =
    banner trace ∷ summary hdr t ∷ finish_warning (count_of (codes "finish") t.counts)

-- The loop over the traces: what it prints, and `total`. An error ends the command.
unfoldable pub summarize_all : Counts → Traces → List Line × Result Ending Counts
unfolding summarize add_counts
summarize_all total [] = ([], ok total)
summarize_all total ((trace, bytes) ∷ traces) = elim (summarize bytes) [
  | none ↦ ([], raise stuck)
  | some (raise e) ↦ ([], raise (raised e))
  | some (ok (hdr, t)) ↦
      let rest = summarize_all (add_counts total t.counts) traces in
      (summary_lines trace hdr t ++ rest.0, rest.1)
]

abbrev last_line : Bool → Traces → Counts → List Line
last_line in_directory [] total = no_traces ∷ []
last_line in_directory (t ∷ ts) total = if in_directory then totals total ∷ [] else []

unfoldable pub cmd_summary : Bool → Traces → Printed
unfolding summarize_all
cmd_summary in_directory traces =
    let all = summarize_all [] traces in
    elim all.1 [
      | raise e ↦ record { printed = all.0; end = e }
      | ok total ↦ record { printed = all.0 ++ last_line in_directory traces total; end = done }
    ]

unfoldable pub cmd_header : Traces → Printed
unfolding parse_header
cmd_header [] = record { printed = []; end = done }
cmd_header ((trace, bytes) ∷ traces) = elim (parse_header bytes) [
  | none ↦ record { printed = banner trace ∷ []; end = stuck }
  | some (raise e) ↦ record { printed = banner trace ∷ []; end = raised e }
  | some (ok hdr) ↦ prints (banner trace ∷ entry trace hdr ∷ []) (cmd_header traces)
]
