-- ===== src/Group/Message.antt =====
-- src/sender-key-message.ts and src/sender-key-distribution-message.ts.
use libsignal_node.Common.{
  ℕ, ◌+◌, ◌-◌, ◌*◌, ◌/◌, ◌%◌, Bytes, [], ◌∷◌, ◌++◌, length, take, drop, ltb, Result, ok, err, ◌>>=◌,
  ◌>>◌, require, plain_error,
}
use libsignal_node.Platform.{Platform}
use libsignal_node.Curve.{calculate_signature, verify_signature}
use libsignal_node.Wire.Group.{
  encode_sender_key_message, decode_sender_key_message, encode_distribution_message,
  decode_distribution_message,
}

abbrev pub signature_length : ℕ
signature_length = 64

abbrev pub current_version : ℕ
current_version = 3

-- `((CURRENT_VERSION << 4) | CURRENT_VERSION) & 0xff`
abbrev pub version_byte : ℕ
version_byte = current_version * 16 + current_version

pub record SenderKeyMessage : Type 0 where
  pub message_version : ℕ
  pub key_id : ℕ
  pub iteration : ℕ
  pub ciphertext : Bytes
  pub signature : Bytes
  pub serialized : Bytes

pub record SenderKeyDistributionMessage : Type 0 where
  pub id : ℕ
  pub iteration : ℕ
  pub chain_key : Bytes
  pub signature_key : Bytes
  pub serialized : Bytes

module _ (p : Platform) where
  -- The constructor on received bytes.
  unfoldable pub parse_sender_key_message : Bytes → Result SenderKeyMessage
  parse_sender_key_message [] = err (plain_error "Invalid SenderKeyMessage: too short")
  parse_sender_key_message (first ∷ rest) =
      let size = length rest + 1 in
      do
        require (ltb signature_length size) (plain_error "Invalid SenderKeyMessage: too short")
        m ← decode_sender_key_message p (take (size - signature_length - 1) rest)
        ok (record {
          message_version = first % 256 / 16;
          key_id = m.id;
          iteration = m.iteration;
          ciphertext = m.ciphertext;
          signature = drop (size - signature_length) (first ∷ rest);
          serialized = first ∷ rest;
        })

  -- The constructor on the parts of a new message.
  unfoldable pub new_sender_key_message : ℕ → ℕ → Bytes → Bytes → Result SenderKeyMessage
  new_sender_key_message key_id iteration ciphertext signature_key =
      let message =
        encode_sender_key_message p
          (record { id = key_id; iteration = iteration; ciphertext = ciphertext }) in
      do
        signature ← calculate_signature p signature_key (version_byte ∷ message)
        ok (record {
          message_version = current_version;
          key_id = key_id;
          iteration = iteration;
          ciphertext = ciphertext;
          signature = signature;
          serialized = version_byte ∷ (message ++ signature);
        })

  unfoldable pub check_signature : Bytes → SenderKeyMessage → Result (Unit {0})
  check_signature signature_key m =
      let cut = length m.serialized - signature_length in
      do
        good ← verify_signature p signature_key (take cut m.serialized) (drop cut m.serialized)
        require good (plain_error "Invalid signature!")

  unfoldable pub new_distribution_message : ℕ → ℕ → Bytes → Bytes → SenderKeyDistributionMessage
  new_distribution_message id iteration chain_key signature_key = record {
    id = id;
    iteration = iteration;
    chain_key = chain_key;
    signature_key = signature_key;
    serialized =
        version_byte
        ∷ encode_distribution_message p (record {
          id = id;
          iteration = iteration;
          chain_key = chain_key;
          signing_key = signature_key;
        });
  }

  unfoldable pub parse_distribution_message : Bytes → Result SenderKeyDistributionMessage
  parse_distribution_message bytes = elim (decode_distribution_message p (drop 1 bytes)) [
    | err _ ↦ err (plain_error "Failed to decode SenderKeyDistributionMessage")
    | ok m ↦ ok (record {
      id = m.id;
      iteration = m.iteration;
      chain_key = m.chain_key;
      signature_key = m.signing_key;
      serialized = bytes;
    })
  ]
