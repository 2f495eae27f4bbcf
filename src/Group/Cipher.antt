-- ===== src/Group/Cipher.antt =====
-- `GroupCipher` of src/group-cipher.ts and `GroupSessionBuilder` of src/group-session-builder.ts, over
-- the record that the store returned; `none` is a store without one. The result holds the record that
-- is stored: a job that throws stores nothing.
pub mod Stored
pub mod Keys
pub mod Finding
pub mod Broadcast
pub mod RoundTrip
pub mod Sealing
pub mod Replay
use libsignal_node.Common.{
  ℕ, zero, suc, ◌-◌, Bytes, [], Option, none, some, length, ltb, ◌||◌, ◌==◌, nat_eq, if◌then◌else◌,
  Result, ok, err, ◌>>=◌, ◌>>◌, require, or_throw, sender_key_error,
}
use libsignal_node.Platform.{Platform, KeyPair}
use libsignal_node.Crypto.{encrypt, decrypt}
use libsignal_node.Group.ChainKey.{
  SenderChainKey, SenderMessageKey, get_sender_message_key, get_next,
}
use libsignal_node.Group.State.{
  SenderKeyState, has_sender_message_key, add_sender_message_key, set_sender_chain_key,
  remove_sender_message_key,
}
use libsignal_node.Group.Record.{
  SenderKeyRecord, is_empty, get_sender_key_state, add_sender_key_state, set_sender_key_state,
  update_last, update_id,
}
use libsignal_node.Group.Message.{
  SenderKeyDistributionMessage, parse_sender_key_message, new_sender_key_message, check_signature,
  new_distribution_message,
}

abbrev pub max_jump : ℕ
max_jump = 2000

module _ (p : Platform) where
  -- The `while` loop of `getSenderKey`, with the rounds left: the keys that are skipped are stored.
  unfoldable pub skip_keys :
      ℕ → SenderChainKey → SenderKeyState → Result (SenderChainKey × SenderKeyState)
  skip_keys zero c s = ok (c, s)
  skip_keys (suc rounds) c s = elim (get_sender_message_key p c) [
    | err e ↦ err e
    | ok k ↦ skip_keys rounds (get_next p c) (add_sender_message_key k s)
  ]

  -- The iteration is behind the chain: only a stored key can serve.
  unfoldable pub take_stored_key : ℕ → SenderKeyState → Result (SenderMessageKey × SenderKeyState)
  take_stored_key iteration s =
      if has_sender_message_key iteration s
      then (do
        (found, s') ← remove_sender_message_key p iteration s
        k ← or_throw found (sender_key_error "undefined")
        ok (k, s'))
      else err (sender_key_error "Received message with old counter")

  unfoldable pub get_sender_key : SenderKeyState → ℕ → Result (SenderMessageKey × SenderKeyState)
  get_sender_key s iteration =
      let current = s.sender_chain_key.iteration in
      if ltb iteration current
      then take_stored_key iteration s
      else if ltb max_jump (iteration - current)
      then err (sender_key_error "Over 2000 messages into the future!")
      else (do
        (c, s') ← skip_keys (iteration - current) s.sender_chain_key s
        k ← get_sender_message_key p c
        ok (k, set_sender_chain_key (get_next p c) s'))

  unfoldable pub group_encrypt : Option SenderKeyRecord → Bytes → Result (Bytes × SenderKeyRecord)
  group_encrypt found padded_plaintext = do
    r ← or_throw found (sender_key_error "No SenderKeyRecord found for encryption")
    s ← or_throw (get_sender_key_state none r) (sender_key_error "No session to encrypt message")
    signing_private ←
        or_throw s.signing_key_private
          (sender_key_error "Signing key is not available for encryption")
    (k, s') ← get_sender_key s s.sender_chain_key.iteration
    ciphertext ← encrypt p k.cipher_key padded_plaintext k.iv
    m ← new_sender_key_message p s.sender_key_id k.iteration ciphertext signing_private
    ok (m.serialized, update_last s' r)

  unfoldable pub group_decrypt : Option SenderKeyRecord → Bytes → Result (Bytes × SenderKeyRecord)
  group_decrypt found bytes = do
    r ← or_throw found (sender_key_error "No sender key record found for decryption")
    m ← parse_sender_key_message p bytes
    s ←
        or_throw (get_sender_key_state (some m.key_id) r)
          (sender_key_error "No session found to decrypt message")
    check_signature p s.signing_key_public m
    (k, s') ← get_sender_key s m.iteration
    text ← decrypt p k.cipher_key m.ciphertext k.iv
    ok (text, update_id m.key_id s' r)

  -- `process`
  unfoldable pub process :
      Option SenderKeyRecord → SenderKeyDistributionMessage → Result SenderKeyRecord
  process found m =
      let r : SenderKeyRecord = elim found [ none ↦ [] | some r ↦ r ] in
      do
        require (length m.chain_key == 32) (sender_key_error "Invalid chain key length")
        require (length m.signature_key == 32 || length m.signature_key == 33)
            (sender_key_error "Invalid signing key length")
        ok (add_sender_key_state m.id m.iteration m.chain_key m.signature_key none r)

  -- The message that announces the newest state of a record.
  unfoldable pub announce :
      SenderKeyRecord → Result (SenderKeyDistributionMessage × SenderKeyRecord)
  announce r = do
    s ←
        or_throw (get_sender_key_state none r)
          (sender_key_error "Failed to create sender key state")
    ok (
      new_distribution_message p s.sender_key_id s.sender_chain_key.iteration
          s.sender_chain_key.chain_key s.signing_key_public,
      r,
    )

  -- `create`: the id, the chain key and the signing key pair are drawn.
  unfoldable pub create :
      ℕ
      → Bytes
      → KeyPair
      → Option SenderKeyRecord
      → Result (SenderKeyDistributionMessage × SenderKeyRecord)
  unfolding announce
  create key_id sender_key signing_key found =
      let r : SenderKeyRecord = elim found [ none ↦ [] | some r ↦ r ] in
      announce (
        if is_empty r
        then add_sender_key_state key_id 0 sender_key signing_key.pub_key
            (some signing_key.priv_key) r
        else r)

  -- `rotate`: whatever was stored is replaced.
  unfoldable pub rotate :
      ℕ → Bytes → KeyPair → Result (SenderKeyDistributionMessage × SenderKeyRecord)
  unfolding announce
  rotate key_id sender_key signing_key =
      announce
        (set_sender_key_state key_id 0 sender_key signing_key.pub_key (some signing_key.priv_key))
