-- ===== src/Evidence.antt =====
-- internal/evidence: the start balance of a release cell.
pub mod Balance
pub mod Start
pub mod Examples
