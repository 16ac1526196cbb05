-- ===== src/Examples.antt =====
-- Tests, and the theorems applied at concrete inputs, over numbers of fixed precision.
pub mod Fixed
pub mod Detectors
pub mod Decisions
pub mod Flow
pub mod Profiling
pub mod Screenings
pub mod Evaluation
pub mod Services
pub mod Storing
pub mod Feeds
pub mod Trades
pub mod Serving
