-- ===== src/Log.antt =====
-- tools/unified_parser.py.
pub mod Activities
pub mod Caches
pub mod File
pub mod Format
pub mod Histogram
pub mod Keys
pub mod Kissat
pub mod Minisat
pub mod Outcome
mod Runs
pub mod Satsolver
pub mod Sections
pub mod StatsCsv
pub mod Thousandths
pub mod Value
pub mod Number
