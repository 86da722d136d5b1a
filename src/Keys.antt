-- ===== src/Keys.antt =====
-- keys/generate.go: the text forms of keys.
pub mod Defs
pub mod RoundTrip
pub mod Sample
mod Tests
