-- ===== src/Trace/Header.antt =====
-- `parse_header` and `iter_events` of tools/trace_lib.py. A file is the list of its bytes.
pub mod Turns
pub mod Views
use mathlib.Core.Option
use sst_sat.Base.{
  Option, ℕ, zero, suc, ◌-◌, ◌&&◌, List, [], ◌∷◌, ◌++◌, none, some, ◌==◌, length, take, drop,
  if◌then◌else◌,
}
use sst_sat.Base.Result.{Result, ok, raise, ◌>>=◌}
use sst_sat.Base.Dict.{Dict, insert, lookup}
use sst_sat.Python.Text.{Text, codes, eq_text, has_char, null, partition, Text_eq}
use sst_sat.Python.Utf8.{decode}
use sst_sat.Trace.Error.{Error, bad_view, bad_magic, no_terminator, bad_utf8, type_error, key_error}
use sst_sat.Trace.Event.{View, view_of}
use sst_sat.Trace.Reader.{Stream, raised, stuck, body_events}

-- A value of the header's dict: a text, or a file offset.
pub data Value : Type 0 where
  text : Text → Value
  offset : ℕ → Value

abbrev pub Header : Type 0
Header = Dict Text Value

-- f.readline() of a binary file: the line with its end, and what follows it
unfoldable pub read_line : List ℕ → List ℕ × List ℕ
read_line [] = ([], [])
read_line (b ∷ bytes) =
    let rest = read_line bytes in if b == 10 then (b ∷ [], bytes) else (b ∷ rest.0, rest.1)

-- t.rstrip('\n')
unfoldable pub strip_newlines : Text → Text
strip_newlines [] = []
strip_newlines (c ∷ t) =
    let rest = strip_newlines t in if (c == 10) && null rest then [] else c ∷ rest

-- `line.decode().rstrip('\n')`
unfoldable pub decode_line : List ℕ → Result Error Text
unfolding strip_newlines
decode_line line = elim (decode line) [ none ↦ raise bad_utf8 | some t ↦ ok (strip_newlines t) ]

-- What the loop does with a line that is not `---`: an error of `decode`, or the line with what the
-- further turns give.
abbrev pub with_line :
    Result Error Text
    → Option (Result Error (List Text × List ℕ))
    → Option (Result Error (List Text × List ℕ))
with_line (raise e) more = some (raise e)
with_line (ok t) none = none
with_line (ok t) (some (raise e)) = some (raise e)
with_line (ok t) (some (ok (ts, rest))) = some (ok (t ∷ ts, rest))

-- The loop over the lines of the header, up to `---`; `none` is no Python outcome: the fuel ran out.
unfoldable pub header_lines : ℕ → List ℕ → Option (Result Error (List Text × List ℕ))
unfolding read_line decode_line
header_lines zero bytes = none
header_lines (suc fuel) bytes =
    let found = read_line bytes in
    let more = header_lines fuel found.1 in
    if null found.0
    then some (raise no_terminator)
    else if eq_text found.0 (codes "---" ++ (10 ∷ []))
    then some (ok ([], found.1))
    else with_line (decode_line found.0) more

-- `for line in lines`
unfoldable pub add_lines : List Text → Header → Header
add_lines [] hdr = hdr
add_lines (line ∷ lines) hdr =
    let kv = partition 61 line in
    add_lines lines (if has_char 61 line then insert kv.0 (text kv.1) hdr else hdr)

abbrev magic : List ℕ
magic = codes "SSTSAT" ++ (0 ∷ 0 ∷ [])

-- The dict of a file from its lines and what follows them.
abbrev header_of : List ℕ → Result Error (List Text × List ℕ) → Result Error Header
unfolding add_lines
header_of file (raise e) = raise e
header_of file (ok (lines, body)) = ok (
    add_lines lines (
      (codes "magic", text (codes "SSTSAT"))
      ∷ (codes "body_offset", offset (length file - length body))
      ∷ []))

-- Each line takes a byte at least, so one turn more than there are bytes is enough.
unfoldable pub parse_header : List ℕ → Option (Result Error Header)
unfolding header_lines header_of
parse_header file =
    if eq_text (take 8 file) magic
    then Option.map (header_of file) (header_lines (suc (length file)) (drop 8 file))
    else some (raise bad_magic)

-- `f.seek(hdr['body_offset'])`, then `f.read()`
unfoldable pub body_of : Header → List ℕ → Result Error (List ℕ)
body_of hdr file = elim (lookup (codes "body_offset") hdr) [
  | some (offset n) ↦ ok (drop n file)
  | some (text t) ↦ raise type_error
  | none ↦ raise key_error
]

abbrev fails : Error → Stream
fails e = record { events = []; ending = raised e }

abbrev body_from : List ℕ → Result Error Header → Result Error (List ℕ)
unfolding body_of
body_from file (raise e) = raise e
body_from file (ok hdr) = body_of hdr file

-- `f.read()` behind the header
unfoldable pub open_body : List ℕ → Option (Result Error (List ℕ))
unfolding parse_header body_from
open_body file = Option.map (body_from file) (parse_header file)

abbrev pub stream_of : View → Option (Result Error (List ℕ)) → Stream
stream_of v none = record { events = []; ending = stuck }
stream_of v (some (raise e)) = fails e
stream_of v (some (ok body)) = body_events v body

-- iter_events(path, view)
unfoldable pub iter_events : List ℕ → Text → Stream
iter_events file view = elim (view_of view) [
  | none ↦ fails bad_view
  | some v ↦ stream_of v (open_body file)
]
