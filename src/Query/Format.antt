-- ===== src/Query/Format.antt =====
-- `_fmt_text` of tools/query_trace.py.
use sst_sat.Base.{◌≡◌, refl, ℕ, ◌++◌, if◌then◌else◌}
use sst_sat.Base.Int.{pos}
use sst_sat.Python.Text.{Text, codes}
use sst_sat.Python.Number.{str, str_ℕ}
use sst_sat.Python.Pad.{pad_left, pad_right, str_hex, hex_padded}
use sst_sat.Trace.Event.{
  Context, Event, phase, mem, decide, enqueue, conflict, learn, backtrack, restart, reduce, finish,
  phase_name,
}
use Prim.Native.String.{String}

-- ` name=n`
abbrev field : String → ℕ → Text
field name n = codes name ++ str_ℕ n

-- The prefix; `ph` is the name of the phase where the event has one, and else its number.
unfoldable pub prefix : Context → Text → Text
unfolding pad_left pad_right str_ℕ
prefix c ph =
    codes "["
    ++ (pad_left 10 (str_ℕ c.cycle)
        ++ (codes "] ph=" ++ (pad_right 9 ph ++ (codes " lvl=" ++ pad_right 3 (str_ℕ c.level)))))

unfoldable pub numbered : Context → Text
unfolding prefix
numbered c = prefix c (str_ℕ c.phase)

unfoldable pub fmt_text : Event → Text
unfolding prefix numbered str str_hex hex_padded phase_name
fmt_text (mem is_write c p ds ds_name addr size) =
    prefix c (phase_name c.phase)
    ++ (codes " MEM "
        ++ ((if is_write then codes "W" else codes "R")
            ++ (codes " "
                ++ (pad_right 12 ds_name
                    ++ (codes " 0x" ++ (hex_padded 8 addr ++ field " +" size))))))
fmt_text (phase c name) = prefix c name ++ (codes " PHASE -> " ++ name)
fmt_text (decide c var sign new_level) =
    numbered c
    ++ (field " DECIDE  var=" var ++ (field " sign=" sign ++ field " new_level=" new_level))
fmt_text (enqueue c var sign reason) =
    numbered c
    ++ (field " ENQUEUE var=" var ++ (field " sign=" sign ++ (codes " reason=" ++ str reason)))
fmt_text (conflict c cref) = numbered c ++ (codes " CONFLICT cref=0x" ++ str_hex cref)
fmt_text (learn c lbd clause_size bt_level new_cref) =
    numbered c
    ++ (field " LEARN lbd=" lbd
        ++ (field " size=" clause_size
            ++ (field " bt_level=" bt_level ++ (codes " new_cref=0x" ++ str_hex new_cref))))
fmt_text (backtrack c from to) = numbered c ++ (field " BACKTRACK " from ++ field " -> " to)
fmt_text (restart c idx) = numbered c ++ field " RESTART #" idx
fmt_text (reduce c removed kept) =
    numbered c ++ (field " REDUCE removed=" removed ++ field " kept=" kept)
fmt_text (finish total_cycles events_written crc32) =
    field "FINISH total_cycles=" total_cycles
    ++ (field " events_written=" events_written ++ (codes " crc32=0x" ++ hex_padded 8 (pos crc32)))

decide_line :
    fmt_text (decide (record { cycle = 7; phase = 4; level = 2 }) 12 1 3)
    ≡ codes "[         7] ph=4         lvl=2   DECIDE  var=12 sign=1 new_level=3"
unfolding fmt_text
decide_line = refl
