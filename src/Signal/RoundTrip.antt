-- ===== src/Signal/RoundTrip.antt =====
-- signal/signal.go: what `New` writes, `Parse` reads.
use native.Mathlib.Nat.{le_refl}
use end_to_end_chat.Base.{
  ◌≢◌, Bool, ◌==◌, true, false, ◌≤◌, ℕ, ◌+◌, ◌++◌, Bytes, length, ◌≡◌, ◌<◌, ◌^◌, arith, refl,
}
use end_to_end_chat.Base.Outcome.{ok, panic, guard, Panic}
use end_to_end_chat.Wire.BigEndian.{put_be}
use end_to_end_chat.Config.{aes_key_size}
use end_to_end_chat.Wire.Writer.{write_all-Emits, emit_rules, layout_size}
use end_to_end_chat.Wire.Reader.Decodes.{
  Decodes, Decodes-need, Decodes-then, Decodes-then_lift, Decodes-take_uint, Decodes-take_bytes,
  Decodes-then_return, read_all-Decodes,
}
use end_to_end_chat.Wire.Reader.Safe.{
  Safe, Safe-need, Safe-take_uint, Safe-lift, Safe-take_bytes, Safe-return,
}
use end_to_end_chat.Signal.Defs.{
  SignalType, IsKey, IsUuid, missing_marker, marker, header_prefix_len,
}
use end_to_end_chat.Signal.New.{new, u16_vrf, u32_vrf}
use end_to_end_chat.Signal.Parse.{read_signal, parse}

-- The layout of an envelope.
abbrev pub envelope : SignalType → Bytes → Bytes → Bytes → Bytes
envelope typ from id content =
    put_be 1 marker
    ++ (put_be 2 (length typ) ++ (typ ++ (from ++ (id ++ (put_be 4 (length content) ++ content)))))

u16_vrf-ok : (n : ℕ) → n < 2 ^ 16 → u16_vrf n ≡ ok n
unfolding u16_vrf
u16_vrf-ok n h = ground arith

u32_vrf-ok : (n : ℕ) → n < 2 ^ 32 → u32_vrf n ≡ ok n
unfolding u32_vrf
u32_vrf-ok n h = ground arith

pub new-layout :
    (typ from id content : Bytes)
    → length typ < 2 ^ 16
    → length content < 2 ^ 32
    → IsKey from
    → IsUuid id
    → new typ from id content ≡ ok (envelope typ from id content)
unfolding new
new-layout typ from id content ht hc hf hi =
    write_all-Emits _ _ (envelope typ from id content)
      (search (emit_rules, ht, hc, hf, hi, u16_vrf-ok, u32_vrf-ok) depth 20)
      (simp layout_size (omega arith))

module _ (typ from id content : Bytes) where
  prefix_room : header_prefix_len ≤ length (envelope typ from id content)
  prefix_room = simp layout_size (omega arith)

  fields_room :
      IsKey from
      → IsUuid id
      → length typ + aes_key_size + 16 + 4
        ≤ length (typ ++ (from ++ (id ++ (put_be 4 (length content) ++ content))))
  fields_room hf hi = simp layout_size (omega arith)

  marker_fits : marker < 256 ^ 1
  marker_fits = omega arith

  read_signal-Decodes :
      length typ < 2 ^ 16
      → length content < 2 ^ 32
      → IsKey from
      → IsUuid id
      → Decodes read_signal
          (envelope typ from id content)
          (record { typ = typ; from = from; id = id; content = content })
  unfolding read_signal
  read_signal-Decodes ht hc hf hi = Decodes-need _ _ _ _ _ prefix_room (
      Decodes-then _ _ _ _ _ _ (Decodes-take_uint 1 marker marker_fits) (
        Decodes-then_lift _ _ _ tt _ refl (
          Decodes-then _ _ _ _ _ _ (Decodes-take_uint 2 (length typ) (omega arith)) (
            Decodes-need _ _ _ _ _ (fields_room hf hi) (
              Decodes-then _ _ _ _ _ _ (Decodes-take_bytes (length typ) typ refl) (
                Decodes-then _ _ _ _ _ _ (Decodes-take_bytes aes_key_size from hf) (
                  Decodes-then _ _ _ _ _ _ (Decodes-take_bytes 16 id hi) (
                    Decodes-then _ _ _ _ _ _ (Decodes-take_uint 4 (length content) (omega arith)) (
                      Decodes-need _ _ _ _ _ (le_refl (length content)) (
                        Decodes-then_return _ _ _ _
                          (Decodes-take_bytes (length content) content refl)))))))))))

  -- Whatever follows the envelope, `Parse` reads back what `New` was given.
  pub parse-new :
      (rest : Bytes)
      → length typ < 2 ^ 16
      → length content < 2 ^ 32
      → IsKey from
      → IsUuid id
      → (wire : Bytes) × (new typ from id content ≡ ok wire)
        × (parse (wire ++ rest)
            ≡ ok (record { typ = typ; from = from; id = id; content = content }))
  unfolding parse
  parse-new rest ht hc hf hi = (
    envelope typ from id content,
    new-layout typ from id content ht hc hf hi,
    read_all-Decodes _ _ rest _ (read_signal-Decodes ht hc hf hi),
  )

marker_guard-ne-panic : (p : Panic) (b : Bool) → guard b missing_marker ≢ panic p
marker_guard-ne-panic p true = λ e. cc
marker_guard-ne-panic p false = λ e. cc

read_signal-Safe : (p : Panic) → Safe p 0 read_signal
unfolding read_signal
read_signal-Safe p = Safe-need _ _ _ _ (
    Safe-take_uint _ _ _ (omega arith) λ first.
      Safe-lift _ _ _ (marker_guard-ne-panic p (first == marker)) λ _.
        Safe-take_uint _ _ _ (omega arith) λ type_len. Safe-need _ _ _ _ (
          Safe-take_bytes _ _ _ (omega arith) λ typ. Safe-take_bytes _ _ _ (omega arith) λ from.
            Safe-take_bytes _ _ _ (omega arith) λ id.
              Safe-take_uint _ _ _ (omega arith) λ content_len.
                Safe-need _ _ _ _ (Safe-take_bytes _ _ _ (omega arith) λ content. Safe-return _ _)))
