-- ===== src/Detect.antt =====
-- internal/detect: the recovery detector.
pub mod Types
pub mod Series
pub mod Windows
pub mod Scan
pub mod Unseen
pub mod Rounds
pub mod Survival
pub mod Verdict
pub mod Homes
pub mod Analysis
pub mod Run
pub mod Sweep
pub mod Examples
