-- ===== src/Client/Api.antt =====
-- client/api.go: the handlers of the local API, each on what was parsed of its request.
pub mod Peers
pub mod Messages
pub mod Profile
pub mod Rejection
pub mod Ownership
mod Tests
