-- ===== src/Client.antt =====
-- client/: the chat client proper, its wire formats, its sessions and its rate limiter.
pub mod Codec
pub mod RateLimit
pub mod Crypto
pub mod Session
pub mod State
pub mod Peers
pub mod Files
pub mod Signals
pub mod Dispatch
pub mod Frames
pub mod Gate
pub mod Authors
pub mod Arrivals
pub mod Acceptance
pub mod Finalize
pub mod Reassembly
pub mod Loop
pub mod NoLimit
pub mod Sending
pub mod Sends
pub mod Outbox
pub mod Invariant
pub mod Http
pub mod Steady
pub mod Connect
pub mod FileSending
pub mod Broadcasts
pub mod Reach
pub mod Api
pub mod EndToEnd
pub mod Sample
mod Tests
