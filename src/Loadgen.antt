-- ===== src/Loadgen.antt =====
-- internal/loadgen: the client's own validity, on its recorded requests.
pub mod Gates
pub mod Ladder
pub mod Arrivals
pub mod Plan
pub mod Order
pub mod Client
pub mod Examples
