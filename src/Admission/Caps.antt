-- ===== src/Admission/Caps.antt =====
-- internal/admission/ledger.go: the caps that `admit` keeps.
pub mod Charge
pub mod Liability
pub mod Admitted
pub mod Within
pub mod Titles
pub mod File
