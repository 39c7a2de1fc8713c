-- ===== src/Results.antt =====
-- tools/parse_results.py: scores, labels and rows for the results of the runs of a solver.
pub mod Aggregate
pub mod Best
pub mod Csv
pub mod Fields
pub mod Label
mod Runs
pub mod Score
pub mod Seeds
pub mod Single
