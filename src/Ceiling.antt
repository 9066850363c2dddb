-- ===== src/Ceiling.antt =====
-- internal/admission/ceiling.go: the ceiling rule of a release route.
pub mod Types
pub mod Demands
pub mod Rule
pub mod Tested
pub mod Binding
pub mod Examples
