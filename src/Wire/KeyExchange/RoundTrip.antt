-- ===== src/Wire/KeyExchange/RoundTrip.antt =====
-- `decode` inverts `encode`, for the key exchange message.
use libsignal_node.Common.{◌≡◌, none, arith, ok}
use libsignal_node.Platform.{Platform, PlatformLaws}
use libsignal_node.Wire.Reader.{
  Reads-nil, Reads-bytes_field, Reads-uint32_field, FitsUint32, FitsUint32-some,
}
use libsignal_node.Wire.KeyExchange.{
  KeyExchangeMessage, encode_key_exchange, decode_key_exchange, key_exchange_field,
}
use native.Mathlib.Nat.{le_refl}

module _ (p : Platform) (laws : PlatformLaws p) where
  -- What `KeyExchangeMessage.encode` writes, `KeyExchangeMessage.decode` reads back: every field that
  -- was present, with its value, and no other. The id has to be an unsigned 32-bit number.
  pub decode_key_exchange-encode_key_exchange :
      (m : KeyExchangeMessage)
      → FitsUint32 m.id
      → decode_key_exchange p (encode_key_exchange p m) ≡ ok m
  unfolding decode_key_exchange encode_key_exchange key_exchange_field
  decode_key_exchange-encode_key_exchange m i =
      Reads-uint32_field p (key_exchange_field p) laws 8
        (λ o. record {
          id = o;
          base_key = none;
          ephemeral_key = none;
          identity_key = none;
          base_key_signature = none;
        })
        m.id _ m (omega arith) (λ n e. rw (laws.read-write_uint32 n _ (FitsUint32-some m.id n i e)))
        (Reads-bytes_field p (key_exchange_field p) laws 18
          (λ o. record m {
            base_key = o;
            ephemeral_key = none;
            identity_key = none;
            base_key_signature = none;
          })
          m.base_key _ m (omega arith) (λ b. rw (laws.read-write_bytes b _))
          (Reads-bytes_field p (key_exchange_field p) laws 26
            (λ o. record m { ephemeral_key = o; identity_key = none; base_key_signature = none })
            m.ephemeral_key _ m (omega arith) (λ b. rw (laws.read-write_bytes b _))
            (Reads-bytes_field p (key_exchange_field p) laws 34
              (λ o. record m { identity_key = o; base_key_signature = none }) m.identity_key _ m
              (omega arith) (λ b. rw (laws.read-write_bytes b _))
              (Reads-bytes_field p (key_exchange_field p) laws 42
                (λ o. record m { base_key_signature = o }) m.base_key_signature _ m (omega arith)
                (λ b. rw (laws.read-write_bytes b _)) (Reads-nil p (key_exchange_field p) m)))))
        _ (le_refl _)
