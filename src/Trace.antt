-- ===== src/Trace.antt =====
-- Traces of the solver: tools/trace_lib.py and src/trace_writer.cc.
pub mod Error
pub mod Varint
pub mod Event
pub mod Reader
pub mod Header
pub mod Writer
pub mod RoundTrip
pub mod Summary
mod Runs
