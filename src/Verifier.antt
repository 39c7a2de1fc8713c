-- ===== src/Verifier.antt =====
-- tools/verifier.py
pub mod Console
pub mod Solution
pub mod Cnf
pub mod Evaluate
pub mod Main
mod Runs
