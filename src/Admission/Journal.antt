-- ===== src/Admission/Journal.antt =====
-- internal/admission/ledger.go: what `Parse` reads back from a file that `append` wrote to.
pub mod Split
pub mod Lines
pub mod Append
