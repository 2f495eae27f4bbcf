-- ===== src/Wire/Group/RoundTrip.antt =====
-- `decode` inverts `encode`, for the two messages of the group protocol.
use libsignal_node.Common.{ℕ, ◌^◌, ◌<◌, ◌≡◌, refl, Bytes, [], ◌∷◌, Option, none, some, arith, ok}
use libsignal_node.Platform.{Platform, PlatformLaws}
use libsignal_node.Wire.Reader.{Reads-nil, Reads-bytes_field, Reads-uint32_field, FitsUint32-some}
use libsignal_node.Wire.Group.{
  SenderKeyMessageProto, SenderKeyDistributionMessageProto, unless_empty, encode_sender_key_message,
  sender_key_field, decode_sender_key_message, encode_distribution_message, distribution_field,
  decode_distribution_message,
}
use native.Mathlib.Nat.{le_refl}

abbrev or_zero : Option ℕ → ℕ
or_zero none = 0
or_zero (some n) = n

abbrev or_empty : Option Bytes → Bytes
or_empty none = []
or_empty (some b) = b

or_empty-unless_empty : (b : Bytes) → or_empty (unless_empty b) ≡ b
or_empty-unless_empty [] = refl
or_empty-unless_empty (x ∷ b) = refl

module _ (p : Platform) (laws : PlatformLaws p) where
  -- What `SenderKeyMessageProto.encode` writes, its `decode` reads back, an empty ciphertext included.
  -- The id and the iteration have to be unsigned 32-bit numbers.
  pub decode_sender_key_message-encode_sender_key_message :
      (m : SenderKeyMessageProto)
      → m.id < 2 ^ 32
      → m.iteration < 2 ^ 32
      → decode_sender_key_message p (encode_sender_key_message p m) ≡ ok m
  unfolding decode_sender_key_message encode_sender_key_message sender_key_field
  decode_sender_key_message-encode_sender_key_message m i j =
      Reads-uint32_field p (sender_key_field p) laws 8
        (λ o. record { id = or_zero o; iteration = 0; ciphertext = [] }) (some m.id) _ m
        (omega arith) (λ n e. rw (laws.read-write_uint32 n _ (FitsUint32-some (some m.id) n i e)))
        (Reads-uint32_field p (sender_key_field p) laws 16
          (λ o. record { id = m.id; iteration = or_zero o; ciphertext = [] }) (some m.iteration) _ m
          (omega arith)
          (λ n e. rw (laws.read-write_uint32 n _ (FitsUint32-some (some m.iteration) n j e)))
          (Reads-bytes_field p (sender_key_field p) laws 26
            (λ o. record { id = m.id; iteration = m.iteration; ciphertext = or_empty o })
            (unless_empty m.ciphertext) _ m (omega arith) (λ b. rw (laws.read-write_bytes b _))
            (rw (or_empty-unless_empty m.ciphertext) (Reads-nil p (sender_key_field p) m))))
        _ (le_refl _)

  -- What `SenderKeyDistributionMessageProto.encode` writes, its `decode` reads back, empty keys
  -- included. The id and the iteration have to be unsigned 32-bit numbers.
  pub decode_distribution_message-encode_distribution_message :
      (m : SenderKeyDistributionMessageProto)
      → m.id < 2 ^ 32
      → m.iteration < 2 ^ 32
      → decode_distribution_message p (encode_distribution_message p m) ≡ ok m
  unfolding decode_distribution_message encode_distribution_message distribution_field
  decode_distribution_message-encode_distribution_message m i j =
      Reads-uint32_field p (distribution_field p) laws 8
        (λ o. record { id = or_zero o; iteration = 0; chain_key = []; signing_key = [] })
        (some m.id) _ m (omega arith)
        (λ n e. rw (laws.read-write_uint32 n _ (FitsUint32-some (some m.id) n i e)))
        (Reads-uint32_field p (distribution_field p) laws 16
          (λ o. record { id = m.id; iteration = or_zero o; chain_key = []; signing_key = [] })
          (some m.iteration) _ m (omega arith)
          (λ n e. rw (laws.read-write_uint32 n _ (FitsUint32-some (some m.iteration) n j e)))
          (Reads-bytes_field p (distribution_field p) laws 26
            (λ o. record {
              id = m.id;
              iteration = m.iteration;
              chain_key = or_empty o;
              signing_key = [];
            })
            (unless_empty m.chain_key) _ m (omega arith) (λ b. rw (laws.read-write_bytes b _))
            (rw (or_empty-unless_empty m.chain_key) (
              Reads-bytes_field p (distribution_field p) laws 34
                (λ o. record m { signing_key = or_empty o }) (unless_empty m.signing_key) _ m
                (omega arith) (λ b. rw (laws.read-write_bytes b _))
                (rw (or_empty-unless_empty m.signing_key)
                  (Reads-nil p (distribution_field p) m))))))
        _ (le_refl _)
