-- ===== src/Admission.antt =====
-- internal/admission: the request and liability ledger.
pub mod Decimal
pub mod Types
pub mod State
pub mod Apply
pub mod Parsing
pub mod Decide
pub mod Operations
pub mod Examples
pub mod Settlement
pub mod Digits
pub mod Printed
pub mod Pricing
pub mod Caps
pub mod Journal
pub mod Acceptance
