-- ===== src/Score.antt =====
-- internal/score: the output contract and the classes of an attempt's outcome.
pub mod Contract
pub mod Outcome
pub mod Meets
pub mod Success
pub mod Examples
