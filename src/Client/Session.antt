-- ===== src/Client/Session.antt =====
-- client/session.go: the encrypted session with one peer. `Defs` has the state, `Cipher` the
-- sending and receiving of packets, `Handshake` the key exchange.
pub mod Defs
pub mod Cipher
pub mod Handshake
pub mod Channel
pub mod Refusals
pub mod Agreement
pub mod Authentic
mod Tests
