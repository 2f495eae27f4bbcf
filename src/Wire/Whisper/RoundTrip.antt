-- ===== src/Wire/Whisper/RoundTrip.antt =====
-- `decode` inverts `encode`, for the two messages of the session protocol.
use libsignal_node.Common.{◌≡◌, none, arith, ok}
use libsignal_node.Platform.{Platform, PlatformLaws}
use libsignal_node.Wire.Reader.{
  Reads-nil, Reads-bytes_field, Reads-uint32_field, FitsUint32, FitsUint32-some,
}
use libsignal_node.Wire.Whisper.{
  WhisperMessage, PreKeyWhisperMessage, encode_whisper, decode_whisper, whisper_field,
  encode_pre_key_whisper, decode_pre_key_whisper, pre_key_whisper_field,
}
use native.Mathlib.Nat.{le_refl}

module _ (p : Platform) (laws : PlatformLaws p) where
  -- What `WhisperMessage.encode` writes, `WhisperMessage.decode` reads back: every field that was
  -- present, with its value, and no other. The two counters have to be unsigned 32-bit numbers.
  pub decode_whisper-encode_whisper :
      (m : WhisperMessage)
      → FitsUint32 m.counter
      → FitsUint32 m.previous_counter
      → decode_whisper p (encode_whisper p m) ≡ ok m
  unfolding decode_whisper encode_whisper whisper_field
  decode_whisper-encode_whisper m c q =
      Reads-bytes_field p (whisper_field p) laws 10
        (λ o. record {
          ephemeral_key = o;
          counter = none;
          previous_counter = none;
          ciphertext = none;
        })
        m.ephemeral_key _ m (omega arith) (λ b. rw (laws.read-write_bytes b _))
        (Reads-uint32_field p (whisper_field p) laws 16
          (λ o. record m { counter = o; previous_counter = none; ciphertext = none }) m.counter _ m
          (omega arith) (λ n e. rw (laws.read-write_uint32 n _ (FitsUint32-some m.counter n c e)))
          (Reads-uint32_field p (whisper_field p) laws 24
            (λ o. record m { previous_counter = o; ciphertext = none }) m.previous_counter _ m
            (omega arith)
            (λ n e. rw (laws.read-write_uint32 n _ (FitsUint32-some m.previous_counter n q e)))
            (Reads-bytes_field p (whisper_field p) laws 34 (λ o. record m { ciphertext = o })
              m.ciphertext _ m (omega arith) (λ b. rw (laws.read-write_bytes b _))
              (Reads-nil p (whisper_field p) m))))
        _ (le_refl _)

  -- What `PreKeyWhisperMessage.encode` writes, `PreKeyWhisperMessage.decode` reads back: every field
  -- that was present, with its value, and no other. The three ids have to be unsigned 32-bit numbers.
  pub decode_pre_key_whisper-encode_pre_key_whisper :
      (m : PreKeyWhisperMessage)
      → FitsUint32 m.registration_id
      → FitsUint32 m.pre_key_id
      → FitsUint32 m.signed_pre_key_id
      → decode_pre_key_whisper p (encode_pre_key_whisper p m) ≡ ok m
  unfolding decode_pre_key_whisper encode_pre_key_whisper pre_key_whisper_field
  decode_pre_key_whisper-encode_pre_key_whisper m r k s =
      Reads-uint32_field p (pre_key_whisper_field p) laws 8
        (λ o. record {
          registration_id = none;
          pre_key_id = o;
          signed_pre_key_id = none;
          base_key = none;
          identity_key = none;
          message = none;
        })
        m.pre_key_id _ m (omega arith)
        (λ n e. rw (laws.read-write_uint32 n _ (FitsUint32-some m.pre_key_id n k e)))
        (Reads-bytes_field p (pre_key_whisper_field p) laws 18
          (λ o. record m {
            base_key = o;
            identity_key = none;
            message = none;
            registration_id = none;
            signed_pre_key_id = none;
          })
          m.base_key _ m (omega arith) (λ b. rw (laws.read-write_bytes b _))
          (Reads-bytes_field p (pre_key_whisper_field p) laws 26
            (λ o. record m {
              identity_key = o;
              message = none;
              registration_id = none;
              signed_pre_key_id = none;
            })
            m.identity_key _ m (omega arith) (λ b. rw (laws.read-write_bytes b _))
            (Reads-bytes_field p (pre_key_whisper_field p) laws 34
              (λ o. record m { message = o; registration_id = none; signed_pre_key_id = none })
              m.message _ m (omega arith) (λ b. rw (laws.read-write_bytes b _))
              (Reads-uint32_field p (pre_key_whisper_field p) laws 40
                (λ o. record m { registration_id = o; signed_pre_key_id = none }) m.registration_id
                _ m (omega arith)
                (λ n e. rw (laws.read-write_uint32 n _ (FitsUint32-some m.registration_id n r e)))
                (Reads-uint32_field p (pre_key_whisper_field p) laws 48
                  (λ o. record m { signed_pre_key_id = o }) m.signed_pre_key_id _ m (omega arith)
                  (λ n e.
                    rw (laws.read-write_uint32 n _ (FitsUint32-some m.signed_pre_key_id n s e)))
                  (Reads-nil p (pre_key_whisper_field p) m))))))
        _ (le_refl _)
