-- ===== src/Signal/New.antt =====
-- signal/signal.go: `New` and its length checks.
use end_to_end_chat.Base.{ℕ, ◌+◌, Bytes, length, ltb, if◌then◌else◌}
use end_to_end_chat.Base.Outcome.{Outcome, ok, err}
use end_to_end_chat.Wire.Writer.{◌>>◌, copy_bytes, put_uint, put_checked, write_all}
use end_to_end_chat.Config.{aes_key_size}
use end_to_end_chat.Signal.Defs.{
  SignalType, marker, Error, length_exceeds_uint16, length_exceeds_uint32,
}

-- A length is never negative, so the test `n < 0` of the source is left out.
unfoldable pub u16_vrf : ℕ → Outcome Error ℕ
u16_vrf n = if ltb 65535 n then err length_exceeds_uint16 else ok n

unfoldable pub u32_vrf : ℕ → Outcome Error ℕ
u32_vrf n = if ltb 4294967295 n then err length_exceeds_uint32 else ok n

unfoldable pub new : SignalType → Bytes → Bytes → Bytes → Outcome Error Bytes
new typ from id content = write_all (1 + 2 + length typ + aes_key_size + 16 + 4 + length content) do
  put_uint 1 marker
  put_checked 2 (u16_vrf (length typ))
  copy_bytes (length typ) typ
  copy_bytes aes_key_size from
  copy_bytes 16 id
  put_checked 4 (u32_vrf (length content))
  copy_bytes (length content) content
