-- ===== src/Keys/RoundTrip.antt =====
-- keys/generate.go: what is written of a key is read back.
use end_to_end_chat.Base.{
  ℕ, suc, ◌-◌, ◌≡◌, ◌≢◌, refl, Bytes, [], ◌∷◌, ◌++◌, length, length-append, take-append,
  drop-append, arith, ltb, zero, ◌<◌, Bool-cases, inl, inr, false,
}
use end_to_end_chat.Base.Outcome.{ok, panic, bind-eq-ok, bind-ne-panic, Panic}
use end_to_end_chat.Signal.Defs.{IsKey}
use end_to_end_chat.Keys.Defs.{
  Hex, KeyError, to_string, from_hex, marshal_json, parse_hex_quoted, unmarshal_json, value, scan,
  blob, byte_at,
}

module _ (h : Hex) where
  -- The text of a key of 32 bytes reads back as the key.
  pub from_hex-to_string : (key : Bytes) → IsKey key → from_hex h (to_string h key) ≡ ok key
  unfolding from_hex to_string
  from_hex-to_string key k = rw (h.length-encode key, k, h.decode-encode key, k) refl

  -- What `FromHex` returns has the length of a key.
  pub from_hex-IsKey : (s : Bytes) {key : Bytes} → from_hex h s ≡ ok key → IsKey key
  unfolding from_hex
  from_hex-IsKey s q = ground arith

  quoted : (s : Bytes) → parse_hex_quoted h (b'"' ∷ (s ++ b'"' ∷ [])) ≡ ok s
  unfolding parse_hex_quoted
  quoted s =
      rw (long_enough, before_last, drop-append s (b'"' ∷ []), inside, take-append s (b'"' ∷ []))
        refl
    where
      long_enough : ltb (suc (length (s ++ b'"' ∷ []))) 2 ≡ false
      long_enough = ground (arith, length-append s (b'"' ∷ []))

      before_last : suc (length (s ++ b'"' ∷ [])) - 1 ≡ suc (length s)
      before_last = omega (arith, length-append s (b'"' ∷ []))

      inside : suc (length (s ++ b'"' ∷ [])) - 2 ≡ length s
      inside = omega (arith, length-append s (b'"' ∷ []))

  -- The JSON form of a key of 32 bytes reads back as the key.
  pub unmarshal_json-marshal_json :
      (key : Bytes) → IsKey key → unmarshal_json h (marshal_json h key) ≡ ok key
  unfolding unmarshal_json marshal_json
  unmarshal_json-marshal_json key k = rw (quoted (to_string h key)) (from_hex-to_string key k)

  -- What `Value` gives to the database, as a string or as bytes, `Scan` reads back.
  pub scan-value :
      (key : Bytes)
      → IsKey key
      → (scan h (value h key) ≡ ok key) × (scan h (blob (to_string h key)) ≡ ok key)
  unfolding scan value
  scan-value key k = (from_hex-to_string key k, from_hex-to_string key k)

  from_hex-ne-panic : (s : Bytes) (p : Panic) → from_hex h s ≢ panic p
  unfolding from_hex
  from_hex-ne-panic s p q = ground arith

  byte_at-ok :
      {E : Type 0} (i : ℕ) (b : Bytes) → i < length b → (x : ℕ) × (byte_at {E = E} i b ≡ ok x)
  byte_at-ok zero [] lt = absurd (omega arith)
  byte_at-ok (suc i) [] lt = absurd (omega arith)
  byte_at-ok zero (x ∷ b) lt = (x, refl)
  byte_at-ok (suc i) (x ∷ b) lt = byte_at-ok i b (omega arith)

  parse_hex_quoted-ne-panic : (b : Bytes) (p : Panic) → parse_hex_quoted h b ≢ panic p
  unfolding parse_hex_quoted
  parse_hex_quoted-ne-panic b p q = elim (Bool-cases (ltb (length b) 2)) [
    | inl short ↦ ground arith
    | inr long ↦
        let (first, there) = byte_at-ok {E = KeyError} 0 b (ground arith) in
        let (last, also) = byte_at-ok {E = KeyError} (length b - 1) b (ground arith) in ground arith
  ]

  -- Whatever bytes arrive, reading the JSON form of a key does not panic, and what it returns has
  -- the length of a key.
  pub unmarshal_json_safe :
      (b : Bytes)
      → ((p : Panic) → unmarshal_json h b ≢ panic p)
        × ((key : Bytes) → unmarshal_json h b ≡ ok key → IsKey key)
  unfolding unmarshal_json
  unmarshal_json_safe b = (
    λ p.
        bind-ne-panic p (parse_hex_quoted h b) (from_hex h) (parse_hex_quoted-ne-panic b p)
          λ s _. from_hex-ne-panic s p,
    λ key q.
        let (s, _, last) = bind-eq-ok (parse_hex_quoted h b) (from_hex h) q in
        from_hex-IsKey s last,
  )
