-- ===== src/Message/Times.antt =====
-- message/message.go: the times of a message that `ToMessage` returns.
use end_to_end_chat.Base.{ℕ, ◌≡◌, Bytes, ℤ, IsInt64Nat, arith}
use end_to_end_chat.Base.Outcome.{ok}
use end_to_end_chat.Wire.Reader.Yields.{
  Yields, Yields-then, Yields-lift, Yields-return, read_all-Yields,
}
use end_to_end_chat.Message.Defs.{Message, DecodeError, to_int64}
use end_to_end_chat.Message.Decode.{read_message, to_message}

to_int64-IsInt64Nat : (n : ℕ) (i : ℤ) → to_int64 {E = DecodeError} n ≡ ok i → IsInt64Nat i
unfolding to_int64
to_int64-IsInt64Nat n i h = ground arith

read_message-created : Yields (λ m. IsInt64Nat m.created_at) read_message
unfolding read_message
read_message-created = Yields-then _ λ _. Yields-then _ λ _. Yields-then _ λ _. Yields-then _ λ _.
    Yields-then _ λ _. Yields-then _ λ _. Yields-then _ λ _. Yields-then _ λ _. Yields-then _ λ _.
      Yields-then _ λ _. Yields-lift _ λ _ _. Yields-then _ λ nanos.
        Yields-lift (to_int64 nanos) λ created fits. Yields-then _ λ _. Yields-lift _ λ _ _.
          Yields-then _
            λ _. Yields-then _ λ _. Yields-return _ (to_int64-IsInt64Nat nanos created fits)

-- The creation time of a message that was decoded can be encoded again.
pub to_message-created :
    (input : Bytes) {m : Message} → to_message input ≡ ok m → IsInt64Nat m.created_at
unfolding to_message
to_message-created input h = read_all-Yields read_message input read_message-created h
