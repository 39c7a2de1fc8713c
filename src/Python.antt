-- ===== src/Python.antt =====
-- The parts of Python's language and standard library that the tools use.
pub mod Pad
pub mod Path
pub mod Sorted
pub mod Text
pub mod Number
pub mod Utf8
pub mod Regex
