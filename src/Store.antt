-- ===== src/Store.antt =====
-- store/: the encrypted values and the tables of the client's database.
pub mod Defs
pub mod Secret
pub mod Statements
pub mod Chats
pub mod Files
pub mod Peers
pub mod Profile
pub mod Outbox
pub mod Records
pub mod Writes
pub mod Sample
mod Tests
