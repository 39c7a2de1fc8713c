-- ===== src/Tools.antt =====
-- The tools that add up or compare the figures of several logs: tools/parse_histogram.py,
-- tools/compute_coprocessor.py, tools/parse_bandwidth.py, tools/parse_prop_breakdown.py,
-- tools/compare_satlib.py and tools/parse_stats.py.
pub mod Bandwidth
pub mod Breakdown
pub mod CacheStats
pub mod Coprocessor
pub mod Histogram
mod Runs
pub mod Satlib
