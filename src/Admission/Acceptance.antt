-- ===== src/Admission/Acceptance.antt =====
-- internal/admission/ledger.go: every line that an operation writes is one that `Parse` takes.
pub mod Entries
pub mod Invariant
pub mod History
pub mod Reach
