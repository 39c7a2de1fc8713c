-- ===== src/Trace/Reader/Records.antt =====
-- Each branch of `iter_events` on the record that the writer makes for it.
use sst_sat.Base.{ℕ, ◌+◌, ◌≡◌, refl, List, [], ◌∷◌, ◌++◌, append_assoc}
use sst_sat.Base.Int.{ℤ}
use sst_sat.Base.Result.{ok}
use sst_sat.Trace.Event.{View, Event, phase_name}
use sst_sat.Trace.Varint.{read_byte}
use sst_sat.Trace.Varint.RoundTrip.{uvarint-write, svarint-write}
use sst_sat.Trace.Writer.Varint.{write_uvarint, write_svarint, IsInt64}
use sst_sat.Trace.Reader.{
  Reader, go, yield, on_tick, on_phase, on_level, on_decide, on_enqueue, on_conflict, on_learn,
  on_backtrack, on_restart, on_reduce,
}

module _ (s : Reader) (rest : List ℕ) where
  pub on_tick-write :
      (delta : ℕ)
      → on_tick View.all (write_uvarint delta ++ rest) s
        ≡ ok (go (record s { context = record s.context { cycle = s.context.cycle + delta } }) rest)
  unfolding on_tick
  on_tick-write delta = simp uvarint-write

  pub on_level-write :
      (l : ℕ)
      → on_level View.all (write_uvarint l ++ rest) s
        ≡ ok (go (record s { context = record s.context { level = l } }) rest)
  unfolding on_level
  on_level-write l = simp uvarint-write

  pub on_decide-write :
      (var sign new_level : ℕ)
      → on_decide View.all ((write_uvarint var ++ (sign ∷ write_uvarint new_level)) ++ rest) s
        ≡ ok (yield (Event.decide s.context var sign new_level) s rest)
  unfolding on_decide read_byte
  on_decide-write var sign new_level = simp (append_assoc, uvarint-write)

  pub on_enqueue-write :
      (var sign : ℕ) (reason : ℤ)
      → IsInt64 reason
      → on_enqueue View.all ((write_uvarint var ++ (sign ∷ write_svarint reason)) ++ rest) s
        ≡ ok (yield (Event.enqueue s.context var sign reason) s rest)
  unfolding on_enqueue read_byte
  on_enqueue-write var sign reason h =
      simp (append_assoc, uvarint-write) (rw (svarint-write reason rest h))

  pub on_phase-write :
      (p : ℕ)
      → on_phase View.all ((p ∷ []) ++ rest) s
        ≡ ok (
            yield
              (Event.phase (record s.context { phase = p }) (phase_name p))
              (record s { context = record s.context { phase = p } })
              rest)
  unfolding on_phase read_byte
  on_phase-write p = refl

  pub on_conflict-write :
      (cref : ℕ)
      → on_conflict View.all (write_uvarint cref ++ rest) s
        ≡ ok (yield (Event.conflict s.context cref) s rest)
  unfolding on_conflict
  on_conflict-write cref = simp uvarint-write

  pub on_learn-write :
      (lbd size level cref : ℕ)
      → on_learn View.all
          ((write_uvarint lbd
              ++ (write_uvarint size ++ (write_uvarint level ++ write_uvarint cref)))
            ++ rest)
          s
        ≡ ok (yield (Event.learn s.context lbd size level cref) s rest)
  unfolding on_learn
  on_learn-write lbd size level cref = simp (append_assoc, uvarint-write)

  pub on_backtrack-write :
      (from to : ℕ)
      → on_backtrack View.all ((write_uvarint from ++ write_uvarint to) ++ rest) s
        ≡ ok (yield (Event.backtrack s.context from to) s rest)
  unfolding on_backtrack
  on_backtrack-write from to = simp (append_assoc, uvarint-write)

  pub on_restart-write :
      (idx : ℕ)
      → on_restart View.all (write_uvarint idx ++ rest) s
        ≡ ok (yield (Event.restart s.context idx) s rest)
  unfolding on_restart
  on_restart-write idx = simp uvarint-write

  pub on_reduce-write :
      (removed kept : ℕ)
      → on_reduce View.all ((write_uvarint removed ++ write_uvarint kept) ++ rest) s
        ≡ ok (yield (Event.reduce s.context removed kept) s rest)
  unfolding on_reduce
  on_reduce-write removed kept = simp (append_assoc, uvarint-write)
