-- ===== src/Schedule.antt =====
-- internal/schedule: a release's temporal frame, derived from one master seed.
pub mod Types
pub mod Window
pub mod Configs
pub mod Derive
pub mod Frame
pub mod Runs
pub mod Derived
pub mod Dates
pub mod Cells
pub mod Guarantee
pub mod Reruns
pub mod Again
pub mod Order
pub mod Shuffle
pub mod Examples
