-- ===== src/Traffic.antt =====
-- What a run's requests give to the ledger and to the published gap histograms.
pub mod Requests
pub mod Sent
pub mod Gaps
pub mod Balance
pub mod Examples
