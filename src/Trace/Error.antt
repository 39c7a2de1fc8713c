-- ===== src/Trace/Error.antt =====
-- The exceptions that reading a trace ends in.
use sst_sat.Base.{ℕ}

pub data Error : Type 0 where
  -- a subscript past the end of a list or of the buffer
  index_error key_error : Error
  -- `view must be one of`, `bad magic`, `header terminator (---) not found`, a header line that is not UTF-8
  bad_view bad_magic no_terminator bad_utf8 : Error
  -- `f.seek` of a text
  type_error : Error
  -- `unknown tag 0x.. at body offset ..`
  unknown_tag : ℕ → ℕ → Error
