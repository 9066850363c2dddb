-- ===== src/Sse.antt =====
-- internal/sse: the framing of a Server-Sent Events stream.
pub mod Split
pub mod Lines
pub mod Rest
pub mod Scan
pub mod Limit
pub mod Events
pub mod Delivery
pub mod Examples
