-- ===== src/Message.antt =====
-- message/message.go: messages and their attachments, and the binary form in which they are
-- stored and sent.
pub mod Defs
pub mod Encode
pub mod Decode
pub mod Layout
pub mod RoundTrip
pub mod Safety
pub mod Times
pub mod Panics
pub mod Attachments
pub mod Repository
pub mod Search
pub mod Sample
mod Tests
