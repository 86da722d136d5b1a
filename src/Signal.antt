-- ===== src/Signal.antt =====
-- signal/signal.go: the envelope of everything that is sent over a session, a marker byte, the
-- type, the sender's key, an id and the content.
pub mod Defs
pub mod New
pub mod Parse
pub mod RoundTrip
mod Tests
