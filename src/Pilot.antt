-- ===== src/Pilot.antt =====
-- internal/pilot: the pilot's schedule.
pub mod Slots
pub mod Plan
pub mod Drawn
pub mod Ordered
pub mod Planned
pub mod Guarantee
pub mod Whole
pub mod Examples
