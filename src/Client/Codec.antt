-- ===== src/Client/Codec.antt =====
-- client/client.go and client/session.go: the contents of the signals `file_meta`,
-- `info_response` and `key_exchange`.
pub mod Lengths
pub mod FileMeta
pub mod InfoResponse
pub mod KeyExchange
mod Tests
