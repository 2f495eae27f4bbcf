-- ===== src/Wire/Group.antt =====
-- The messages of src/group-proto.ts. The source writes an id and an iteration always, and a byte
-- string when it is not empty; a field that is not read keeps its default, 0 or an empty buffer.
pub mod RoundTrip
use libsignal_node.Common.{
  ℕ, ◌/◌, Bytes, [], ◌∷◌, ◌++◌, Option, none, some, length, ◌==◌, nat_eq, if◌then◌else◌, Result, ok,
  ◌>>=◌,
}
use libsignal_node.Platform.{Platform}
use libsignal_node.Wire.Reader.{read_fields, bytes_field, uint32_field, skip}

pub record SenderKeyMessageProto : Type 0 where
  pub id : ℕ
  pub iteration : ℕ
  pub ciphertext : Bytes

pub record SenderKeyDistributionMessageProto : Type 0 where
  pub id : ℕ
  pub iteration : ℕ
  pub chain_key : Bytes
  pub signing_key : Bytes

-- `if (b.length)`: an empty byte string is not written.
abbrev pub unless_empty : Bytes → Option Bytes
unless_empty [] = none
unless_empty (b ∷ bs) = some (b ∷ bs)

module _ (p : Platform) where
  unfoldable pub encode_sender_key_message : SenderKeyMessageProto → Bytes
  encode_sender_key_message m =
      uint32_field p 8 (some m.id)
      ++ (uint32_field p 16 (some m.iteration)
          ++ (bytes_field p 26 (unless_empty m.ciphertext) ++ []))

  unfoldable pub sender_key_field :
      ℕ → SenderKeyMessageProto → Bytes → Result (SenderKeyMessageProto × Bytes)
  sender_key_field tag m left =
      if tag / 8 == 1
      then (do (n, rest) ← p.read_uint32 left; ok (record m { id = n }, rest))
      else if tag / 8 == 2
      then (do (n, rest) ← p.read_uint32 left; ok (record m { iteration = n }, rest))
      else if tag / 8 == 3
      then (do (b, rest) ← p.read_bytes left; ok (record m { ciphertext = b }, rest))
      else skip p tag m left

  unfoldable pub decode_sender_key_message : Bytes → Result SenderKeyMessageProto
  decode_sender_key_message bytes =
      read_fields p sender_key_field (length bytes)
        (record { id = 0; iteration = 0; ciphertext = [] }) bytes

  unfoldable pub encode_distribution_message : SenderKeyDistributionMessageProto → Bytes
  encode_distribution_message m =
      uint32_field p 8 (some m.id)
      ++ (uint32_field p 16 (some m.iteration)
          ++ (bytes_field p 26 (unless_empty m.chain_key)
              ++ (bytes_field p 34 (unless_empty m.signing_key) ++ [])))

  unfoldable pub distribution_field :
      ℕ
      → SenderKeyDistributionMessageProto
      → Bytes
      → Result (SenderKeyDistributionMessageProto × Bytes)
  distribution_field tag m left =
      if tag / 8 == 1
      then (do (n, rest) ← p.read_uint32 left; ok (record m { id = n }, rest))
      else if tag / 8 == 2
      then (do (n, rest) ← p.read_uint32 left; ok (record m { iteration = n }, rest))
      else if tag / 8 == 3
      then (do (b, rest) ← p.read_bytes left; ok (record m { chain_key = b }, rest))
      else if tag / 8 == 4
      then (do (b, rest) ← p.read_bytes left; ok (record m { signing_key = b }, rest))
      else skip p tag m left

  unfoldable pub decode_distribution_message : Bytes → Result SenderKeyDistributionMessageProto
  decode_distribution_message bytes =
      read_fields p distribution_field (length bytes)
        (record { id = 0; iteration = 0; chain_key = []; signing_key = [] }) bytes
