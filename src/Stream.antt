-- ===== src/Stream.antt =====
-- internal/loadgen/sse_client.go: what a client reads of a response.
pub mod Json
pub mod Chunk
pub mod Messages
pub mod Usage
pub mod Secrets
pub mod Reply
pub mod Read
pub mod Tokens
pub mod Counts
pub mod Ending
pub mod Overlay
pub mod Merged
pub mod Masked
pub mod Hidden
pub mod Errors
pub mod Frames
pub mod Kept
pub mod Tail
pub mod Recording
pub mod Headers
pub mod Covering
pub mod Small
pub mod Examples
