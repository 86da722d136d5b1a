-- ===== src/Config.antt =====
-- config/config.go: the sizes and limits that the other packages share.
use end_to_end_chat.Base.{ℕ, ◌*◌, ◌^◌}

abbrev pub aes_key_size : ℕ
aes_key_size = 32

abbrev pub nonce_size : ℕ
nonce_size = 12

abbrev pub file_id_len : ℕ
file_id_len = 16

abbrev pub pub_key_len : ℕ
pub_key_len = 64

abbrev pub file_chunk_size : ℕ
file_chunk_size = 256 * 2 ^ 10
