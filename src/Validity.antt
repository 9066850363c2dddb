-- ===== src/Validity.antt =====
-- internal/validity: whether a run's numbers may be published.
pub mod Types
pub mod Gates
pub mod Evaluate
pub mod Reasons
pub mod Published
pub mod Label
pub mod Examples
